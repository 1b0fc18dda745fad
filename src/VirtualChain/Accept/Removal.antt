-- ===== src/VirtualChain/Accept/Removal.antt =====
-- Removing blocks chunk by chunk is removing them at once.
use simply_kaspa_indexer.Prelude.{
  ℕ, ◌+◌, ◌≡◌, ◌∙◌, refl, sym, ap, Bool, not, ◌||◌, some, List, [], ◌∷◌, ◌++◌, Bytes, gather, arith,
  Bool-cases, inl, inr, >>=-eq_some, some-injective,
}
use simply_kaspa_indexer.Models.{TransactionAcceptance}
use simply_kaspa_indexer.Database.Delete.{
  delete_transaction_acceptances, any, retain, count, sql_eq,
}
use simply_kaspa_indexer.Database.Batches.{chunks, chain_blocks_size}
use simply_kaspa_indexer.Processing.Gather.{gather-chunks}
use simply_kaspa_indexer.VirtualChain.Accept.{remove_parts, remove_chain_blocks}

pair_eq : {A B : Type 0} {a a' : A} {b b' : B} → a ≡ a' → b ≡ b' → ◌≡◌ {A = A × B} (a, b) (a', b')
pair_eq p q = cc

any-append : {A : Type 0} (p : A → Bool) (xs ys : List A) → any p (xs ++ ys) ≡ any p xs || any p ys
any-append p [] ys = refl
any-append p (x ∷ xs) ys = elim (Bool-cases (p x)) [
  | inl yes_ ↦ rw yes_ refl
  | inr no_ ↦ rw no_ (any-append p xs ys)
]

-- `r` is `p` or `q`.
module _ {A : Type 0} (p q r : A → Bool) (either : (a : A) → r a ≡ p a || q a) where
  retain_either :
      (xs : List A)
      → retain (λ a. not (r a)) xs ≡ retain (λ a. not (q a)) (retain (λ a. not (p a)) xs)
  unfolding retain
  retain_either [] = refl
  retain_either (x ∷ xs) = elim (Bool-cases (p x)) [
    | inl yes_ ↦ rw (either x, yes_) (retain_either xs)
    | inr no_ ↦ elim (Bool-cases (q x)) [
      | inl hit ↦ rw (either x, no_, hit) (retain_either xs)
      | inr miss ↦ rw (either x, no_, miss) (ap (◌∷◌ x) (retain_either xs))
    ]
  ]

  count_either : (xs : List A) → count r xs ≡ count p xs + count q (retain (λ a. not (p a)) xs)
  unfolding retain count
  count_either [] = omega arith
  count_either (x ∷ xs) = elim (Bool-cases (p x)) [
    | inl yes_ ↦ rw (either x, yes_) (omega (arith, count_either xs))
    | inr no_ ↦ elim (Bool-cases (q x)) [
      | inl hit ↦ rw (either x, no_, hit) (omega (arith, count_either xs))
      | inr miss ↦ rw (either x, no_, miss) (count_either xs)
    ]
  ]

abbrev names : List Bytes → TransactionAcceptance → Bool
names hashes ta = any (λ h. sql_eq ta.block_hash (some h)) hashes

-- Two deletions, one behind the other.
delete-append :
    (hashes more : List Bytes) (rows : List TransactionAcceptance)
    → delete_transaction_acceptances (hashes ++ more) rows ≡ (
      (delete_transaction_acceptances more (delete_transaction_acceptances hashes rows).0).0,
      (delete_transaction_acceptances hashes rows).1
          + (delete_transaction_acceptances more (delete_transaction_acceptances hashes rows).0).1,
    )
unfolding delete_transaction_acceptances
delete-append hashes more rows =
    let either =
      λ (ta : TransactionAcceptance). any-append (λ h. sql_eq ta.block_hash (some h)) hashes more in
    pair_eq (retain_either (names hashes) (names more) (names (hashes ++ more)) either rows)
      (count_either (names hashes) (names more) (names (hashes ++ more)) either rows)

delete_none :
    (rows : List TransactionAcceptance) → delete_transaction_acceptances [] rows ≡ (rows, 0)
unfolding delete_transaction_acceptances retain count
delete_none [] = refl
delete_none (row ∷ rows) =
    pair_eq (ap (λ p. row ∷ p.0) (delete_none rows)) (ap (λ p. p.1) (delete_none rows))

remove_parts-gather :
    (parts : List (List Bytes)) (rows : List TransactionAcceptance)
    → remove_parts parts rows ≡ delete_transaction_acceptances (gather (λ part. part) parts) rows
unfolding remove_parts
remove_parts-gather [] rows = sym (delete_none rows)
remove_parts-gather (part ∷ parts) rows =
    ap (λ p. (p.0, (delete_transaction_acceptances part rows).1 + p.1))
      (remove_parts-gather parts (delete_transaction_acceptances part rows).0)
    ∙ sym (delete-append part (gather (λ part. part) parts) rows)

-- However many blocks a reorg removes: where the statements are sent chunk by chunk, the acceptances
-- that stay and the number of deleted rows, by which the caller tells a reorg, are those of one
-- statement with all hashes.
pub remove_chain_blocks-delete :
    (scaled : ℕ → ℕ) (removed_hashes : List Bytes) (rows : List TransactionAcceptance)
    {result : List TransactionAcceptance × ℕ}
    → remove_chain_blocks scaled removed_hashes rows ≡ some result
    → result ≡ delete_transaction_acceptances removed_hashes rows
unfolding remove_chain_blocks
remove_chain_blocks-delete scaled removed_hashes rows e =
    let (parts, cut, done) = >>=-eq_some (chunks (chain_blocks_size scaled) removed_hashes) _ e in
    sym (some-injective done)
    ∙ remove_parts-gather parts rows
    ∙ ap (λ hashes. delete_transaction_acceptances hashes rows)
        (gather-chunks (chain_blocks_size scaled) removed_hashes cut)
