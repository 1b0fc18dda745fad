-- ===== src/Database/Split/Fuel.antt =====
-- The fuel of `split_statements` and of the search for a closing tag is enough.
use simply_kaspa_indexer.Prelude.{
  some, List, Bool-cases, inl, inr, ℕ, zero, suc, ◌≤◌, ◌≡◌, refl, [], ◌∷◌, ◌++◌, ◌&&◌, Bytes,
  length, arith, ◌==◌,
}
use simply_kaspa_indexer.Models.{bytes_eq}
use simply_kaspa_indexer.Database.Split.{
  Scanned, quote, starts_with, passing, to_dollar, to_tag, to_quote, to_newline, to_comment_end,
  tail, scan, push, split_from, split_statements,
}

-- No part of a round goes back.
to_dollar_le : (cs : Bytes) → length (to_dollar cs).1 ≤ length cs
unfolding to_dollar
to_dollar_le [] = omega arith
to_dollar_le (c ∷ cs) = ground (arith, to_dollar_le cs)

to_quote_le : (cs : Bytes) → length (to_quote cs).1 ≤ length cs
unfolding to_quote
to_quote_le [] = omega arith
to_quote_le (c ∷ []) = omega arith
to_quote_le (c ∷ d ∷ cs) = ground (arith, to_quote_le cs, to_quote_le (d ∷ cs))

to_newline_le : (cs : Bytes) → length (to_newline cs).1 ≤ length cs
unfolding to_newline
to_newline_le [] = omega arith
to_newline_le (c ∷ cs) = ground (arith, to_newline_le cs)

to_comment_end_le : (cs : Bytes) → length (to_comment_end cs).1 ≤ length cs
unfolding to_comment_end
to_comment_end_le [] = omega arith
to_comment_end_le (c ∷ []) = omega arith
to_comment_end_le (c ∷ d ∷ cs) = ground (arith, to_comment_end_le (d ∷ cs))

tail_le : (cs : Bytes) → length (tail cs) ≤ length cs
tail_le [] = omega arith
tail_le (c ∷ cs) = omega arith

with_fuel :
    (P : ℕ → Type 0) (n : ℕ)
    → ((fuel : ℕ) → n ≤ fuel → P (suc fuel))
    → (fuel : ℕ) → suc n ≤ fuel
    → P fuel
with_fuel P n h zero enough = absurd (omega arith)
with_fuel P n h (suc fuel) enough = h fuel (omega arith)

-- What a search that has fuel enough ends with, whatever the fuel is: it does not go back.
abbrev TagEnds : Bytes → Bytes → Type 0
TagEnds tag cs =
    (s : Scanned) × (length s.1 ≤ length cs)
    × ((fuel : ℕ) → length cs ≤ fuel → to_tag fuel tag cs ≡ some s)

to_tag-TagEnds : (n : ℕ) (tag cs : Bytes) → length cs ≤ n → TagEnds tag cs
unfolding to_tag
to_tag-TagEnds n tag [] h = (([], []), omega arith, λ fuel enough. refl)
to_tag-TagEnds zero tag (c ∷ cs) h = absurd (omega arith)
to_tag-TagEnds (suc n) tag (c ∷ cs) h =
    let behind = to_dollar_le cs in
    let ((token, rest), short, ended) = to_tag-TagEnds n tag (to_dollar cs).1 (omega arith) in
    let ((token', rest'), short', ended') = to_tag-TagEnds n tag cs (omega arith) in
    elim (Bool-cases (c == b'$')) [
      | inl d ↦ elim (Bool-cases (bytes_eq (c ∷ (to_dollar cs).0) tag)) [
        | inl e ↦ (
          (c ∷ (to_dollar cs).0, (to_dollar cs).1),
          omega arith,
          with_fuel
              (λ fuel. to_tag fuel tag (c ∷ cs) ≡ some (c ∷ (to_dollar cs).0, (to_dollar cs).1))
              (length cs) (λ f enough. rw (d, e) refl),
        )
        | inr e ↦ (
          passing (c ∷ (to_dollar cs).0) (token, rest),
          omega arith,
          with_fuel
              (λ fuel.
                to_tag fuel tag (c ∷ cs) ≡ some (passing (c ∷ (to_dollar cs).0) (token, rest)))
              (length cs) (λ f enough. rw (d, e, ended f (omega arith)) refl),
        )
      ]
      | inr d ↦ (
        passing (c ∷ []) (token', rest'),
        omega arith,
        with_fuel (λ fuel. to_tag fuel tag (c ∷ cs) ≡ some (passing (c ∷ []) (token', rest')))
            (length cs) (λ f enough. rw (d, ended' f enough) refl),
      )
    ]

-- A round ends, and leaves no more than the text behind its byte.
scan_ends : (c : ℕ) (cs : Bytes) → (s : Scanned) × (length s.1 ≤ length cs) × (scan c cs ≡ some s)
unfolding scan
scan_ends c cs =
    let behind = to_dollar_le cs in
    let (s, short, ended) =
      to_tag-TagEnds (length (to_dollar cs).1) (c ∷ (to_dollar cs).0) (to_dollar cs).1
        (omega arith) in
    let string = to_quote_le cs in
    let line = to_newline_le cs in
    let block = to_comment_end_le (tail cs) in
    let less = tail_le cs in
    elim (Bool-cases (c == b'$')) [
      | inl d ↦ (
        passing (c ∷ (to_dollar cs).0) s,
        omega arith,
        rw (d, ended (length (to_dollar cs).1) (omega arith)) refl,
      )
      | inr d ↦ elim (Bool-cases (c == quote)) [
        | inl q ↦ (passing (c ∷ []) (to_quote cs), omega arith, rw (d, q) refl)
        | inr q ↦ elim (Bool-cases (c == b'-' && starts_with b'-' cs)) [
          | inl m ↦ (passing (c ∷ []) (to_newline cs), omega arith, rw (d, q, m) refl)
          | inr m ↦ elim (Bool-cases (c == b'/' && starts_with b'*' cs)) [
            | inl b ↦ (
              passing (c ∷ b'*' ∷ []) (to_comment_end (tail cs)),
              omega arith,
              rw (d, q, m, b) refl,
            )
            | inr b ↦ ((c ∷ [], cs), omega arith, rw (d, q, m, b) refl)
          ]
        ]
      ]
    ]

abbrev SplitEnds : Bytes → Bytes → Type 0
SplitEnds piece cs =
    (found : List Bytes) × ((fuel : ℕ) → length cs ≤ fuel → split_from fuel piece cs ≡ some found)

split_from-SplitEnds : (n : ℕ) (piece cs : Bytes) → length cs ≤ n → SplitEnds piece cs
unfolding split_from
split_from-SplitEnds n piece [] h = (push piece [], λ fuel enough. refl)
split_from-SplitEnds zero piece (c ∷ cs) h = absurd (omega arith)
split_from-SplitEnds (suc n) piece (c ∷ cs) h =
    let ((token, rest), short, scanned) = scan_ends c cs in
    let (found, ended) = split_from-SplitEnds n [] cs (omega arith) in
    let (found', ended') = split_from-SplitEnds n (piece ++ token) rest (omega arith) in
    elim (Bool-cases (c == b';')) [
      | inl e ↦ (
        push piece found,
        with_fuel (λ fuel. split_from fuel piece (c ∷ cs) ≡ some (push piece found)) (length cs)
            (λ f enough. rw (e, ended f enough) refl),
      )
      | inr e ↦ (
        found',
        with_fuel (λ fuel. split_from fuel piece (c ∷ cs) ≡ some found') (length cs)
            (λ f enough. rw (e, scanned, ended' f (omega arith)) refl),
      )
    ]

-- The loops of `split_statements` end on every text: none of them uses up a fuel of the text's length, which
-- each round of it lessens by a byte at least, and with any more fuel the same statements are found.
pub split_statements_fuel :
    (fuel : ℕ) (sql : Bytes)
    → length sql ≤ fuel
    → (found : List Bytes) × (split_statements sql ≡ some found)
      × (split_from fuel [] sql ≡ some found)
unfolding split_statements
split_statements_fuel fuel sql h =
    let (found, ended) = split_from-SplitEnds (length sql) [] sql (omega arith) in
    (found, ended (length sql) (omega arith), ended fuel h)
