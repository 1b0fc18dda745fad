-- ===== src/Database/Split/Plain.antt =====
-- Scripts whose statements are made of plain bytes and of strings in single quotes.
use simply_kaspa_indexer.Prelude.{
  subst, Option, some, All, ℕ, zero, suc, ◌≤◌, ◌≡◌, ◌≢◌, refl, ap, ◌∙◌, List, [], ◌∷◌, ◌++◌, Bytes,
  length, All, arith, append_assoc, append-nil,
}
use simply_kaspa_indexer.Database.Split.{
  quote, trim, to_quote, scan, push, split_from, split_statements,
}

-- A byte at which the scanner does nothing of its own.
abbrev pub IsPlain : ℕ → Type 0
IsPlain c = (c ≢ b'$') × (c ≢ quote) × (c ≢ b'-') × (c ≢ b'/') × (c ≢ b';')

-- `quoted body c` is a string in single quotes and the byte `c` behind it.
pub data Part : Type 0 where
  plain : ℕ → Part
  quoted : Bytes → ℕ → Part

abbrev pub IsPart : Part → Type 0
IsPart (plain c) = IsPlain c
IsPart (quoted body c) = All (λ b. b ≢ quote) body × IsPlain c

abbrev pub text_of : Part → Bytes
text_of (plain c) = c ∷ []
text_of (quoted body c) = quote ∷ (body ++ (quote ∷ c ∷ []))

abbrev pub text : List Part → Bytes
text [] = []
text (p ∷ ps) = text_of p ++ text ps

scan-plain : (c : ℕ) (cs : Bytes) → IsPlain c → scan c cs ≡ some (c ∷ [], cs)
unfolding scan
scan-plain c cs (d, q, m, s, e) = ground arith

to_quote-body :
    (body : Bytes) (c : ℕ) (cs : Bytes)
    → All (λ b. b ≢ quote) body
    → c ≢ quote
    → to_quote (body ++ (quote ∷ c ∷ cs)) ≡ (body ++ (quote ∷ []), c ∷ cs)
unfolding to_quote
to_quote-body [] c cs h n = ground arith
to_quote-body (b ∷ []) c cs h n = ground (arith, h.0)
to_quote-body (b ∷ b₁ ∷ body) c cs h n =
    let rest = to_quote-body (b₁ ∷ body) c cs h.1 n in ground (arith, h.0, rest)

-- A script: every statement with its `;`.
abbrev pub script : List (List Part) → Bytes
script [] = []
script (s ∷ ss) = text s ++ (b';' ∷ script ss)

-- The statements without the white space around them, those of white space only left out.
abbrev pub statements_of : List (List Part) → List Bytes
statements_of [] = []
statements_of (s ∷ ss) = push (text s) (statements_of ss)

split_from-plain :
    (fuel : ℕ) (piece : Bytes) (c : ℕ) (cs : Bytes)
    → IsPlain c
    → split_from (suc fuel) piece (c ∷ cs) ≡ split_from fuel (piece ++ (c ∷ [])) cs
unfolding split_from
split_from-plain fuel piece c cs h = rw (scan-plain c cs h) (ground (arith, h))

split_from-quoted :
    (fuel : ℕ) (piece body : Bytes) (c : ℕ) (cs : Bytes)
    → All (λ b. b ≢ quote) body
    → c ≢ quote
    → split_from (suc fuel) piece (quote ∷ (body ++ (quote ∷ c ∷ cs)))
      ≡ split_from fuel (piece ++ (quote ∷ (body ++ (quote ∷ [])))) (c ∷ cs)
unfolding split_from
split_from-quoted fuel piece body c cs h n = rw (to_quote-body body c cs h n) refl

length_at_least : (xs : Bytes) (y : ℕ) (ys : Bytes) → suc (length ys) ≤ length (xs ++ (y ∷ ys))
length_at_least [] y ys = omega arith
length_at_least (x ∷ xs) y ys = let rest = length_at_least xs y ys in omega arith

body_text :
    (body : Bytes) (c : ℕ) (rest next : Bytes)
    → ((body ++ (quote ∷ c ∷ [])) ++ rest) ++ next ≡ body ++ (quote ∷ c ∷ (rest ++ next))
body_text [] c rest next = refl
body_text (b ∷ body) c rest next = ap (◌∷◌ b) (body_text body c rest next)

closed_text :
    (body : Bytes) (c : ℕ) (rest : Bytes)
    → ((body ++ (quote ∷ [])) ++ (c ∷ [])) ++ rest ≡ (body ++ (quote ∷ c ∷ [])) ++ rest
closed_text [] c rest = refl
closed_text (b ∷ body) c rest = ap (◌∷◌ b) (closed_text body c rest)

piece_text :
    (piece body : Bytes) (c : ℕ) (rest : Bytes)
    → ((piece ++ (quote ∷ (body ++ (quote ∷ [])))) ++ (c ∷ [])) ++ rest
      ≡ piece ++ (quote ∷ ((body ++ (quote ∷ c ∷ [])) ++ rest))
piece_text [] body c rest = ap (◌∷◌ quote) (closed_text body c rest)
piece_text (x ∷ piece) body c rest = ap (◌∷◌ x) (piece_text piece body c rest)

split_from-end :
    (fuel : ℕ) (piece next : Bytes) (found : List Bytes)
    → split_from fuel [] next ≡ some found
    → split_from (suc fuel) piece (b';' ∷ next) ≡ some (push piece found)
unfolding split_from
split_from-end fuel piece next found e = rw e refl

split_from-empty : (fuel : ℕ) → split_from fuel [] [] ≡ some []
unfolding split_from trim
split_from-empty zero = refl
split_from-empty (suc fuel) = refl

split_from-behind :
    (fuel : ℕ) (piece : Bytes) (c : ℕ) (cs : Bytes) (found : Bytes → Option (List Bytes))
    → IsPlain c
    → ((f : ℕ) (piece' : Bytes) → length cs ≤ f → split_from f piece' cs ≡ found piece')
    → length (c ∷ cs) ≤ fuel
    → split_from fuel piece (c ∷ cs) ≡ found (piece ++ (c ∷ []))
split_from-behind zero piece c cs found p later enough = absurd (omega arith)
split_from-behind (suc fuel) piece c cs found p later enough =
    split_from-plain fuel piece c cs p ∙ later fuel (piece ++ (c ∷ [])) (omega arith)

split_from-text :
    (ps : List Part) (fuel : ℕ) (piece next : Bytes) (found : List Bytes)
    → All IsPart ps
    → ((f : ℕ) → length next ≤ f → split_from f [] next ≡ some found)
    → length (text ps ++ (b';' ∷ next)) ≤ fuel
    → split_from fuel piece (text ps ++ (b';' ∷ next)) ≡ some (push (piece ++ text ps) found)
split_from-text ps zero piece next found h later enough =
    let some_left = length_at_least (text ps) b';' next in absurd (omega arith)
split_from-text [] (suc fuel) piece next found h later enough =
    rw (append-nil piece) (split_from-end fuel piece next found (later fuel (omega arith)))
split_from-text (plain c ∷ ps) (suc fuel) piece next found h later enough =
    split_from-plain fuel piece c (text ps ++ (b';' ∷ next)) h.0
    ∙ (split_from-text ps fuel (piece ++ (c ∷ [])) next found h.1 later (omega arith)
        ∙ ap (λ x. some (push x found)) (append_assoc piece (c ∷ []) (text ps)))
split_from-text (quoted body c ∷ ps) (suc fuel) piece next found h later enough =
    let behind : Bytes = text ps ++ (b';' ∷ next) in
    let same = body_text body c (text ps) (b';' ∷ next) in
    let long = length_at_least body quote (c ∷ behind) in
    let enough' : suc (length (body ++ (quote ∷ c ∷ behind))) ≤ suc fuel =
      subst (λ x. suc (length x) ≤ suc fuel) same enough in
    ap (λ x. split_from (suc fuel) piece (quote ∷ x)) same
    ∙ (split_from-quoted fuel piece body c behind h.0.0 h.0.1.1
        ∙ (split_from-behind fuel (piece ++ (quote ∷ (body ++ (quote ∷ [])))) c behind
              (λ piece'. some (push (piece' ++ text ps) found)) h.0.1
              (λ f piece' few. split_from-text ps f piece' next found h.1 later few) (omega arith)
            ∙ ap (λ x. some (push x found)) (piece_text piece body c (text ps))))

split_from-script :
    (ss : List (List Part)) (fuel : ℕ)
    → All (λ s. All IsPart s) ss
    → length (script ss) ≤ fuel
    → split_from fuel [] (script ss) ≡ some (statements_of ss)
split_from-script [] zero h enough = split_from-empty zero
split_from-script [] (suc fuel) h enough = split_from-empty (suc fuel)
split_from-script (s ∷ ss) fuel h enough =
    split_from-text s fuel [] (script ss) (statements_of ss) h.0
      (λ f enough'. split_from-script ss f h.1 enough') enough

-- Of a script whose statements each end in `;` and are made of plain bytes and of strings in single
-- quotes with a plain byte behind them, all statements are found in their order, without the white
-- space around them and without those of white space only. A `;` in a string ends no statement.
pub split_statements-script :
    (ss : List (List Part))
    → All (λ s. All IsPart s) ss
    → split_statements (script ss) ≡ some (statements_of ss)
unfolding split_statements
split_statements-script ss h = split_from-script ss (length (script ss)) h (omega arith)
