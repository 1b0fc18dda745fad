-- ===== src/Processing/Transactions/RowSet.antt =====
-- `IndexSet` keeps, for each row, one that equals it.
use simply_kaspa_indexer.Prelude.{
  ◌≡◌, Bool, true, List, [], ◌∷◌, ◌++◌, All, Any, All-imp, inl, inr, Bool-cases,
}
use simply_kaspa_indexer.Models.{
  AddressTransaction, ScriptTransaction, address_transaction_eq, script_transaction_eq,
  bytes_eq_refl,
}
use simply_kaspa_indexer.Database.Batches.Cover.{Any-append_left, Any-append_right}
use simply_kaspa_indexer.Processing.Transactions.{has, extend}

has-Any :
    {A : Type 0} (eq : A → A → Bool) (a : A) (set : List A)
    → has eq a set ≡ true
    → Any (λ x. eq x a ≡ true) set
unfolding has
has-Any eq a [] h = cc
has-Any eq a (x ∷ xs) h = elim (Bool-cases (eq x a)) [
  | inl same ↦ inl same
  | inr other ↦ inr (has-Any eq a xs (rw other at h))
]

pub extend_keeps :
    {A : Type 0} (P : A → Type 0) (eq : A → A → Bool) (set rows : List A)
    → Any P set
    → Any P (extend eq set rows)
unfolding extend
extend_keeps P eq set [] h = h
extend_keeps P eq set (a ∷ rows) h = elim (Bool-cases (has eq a set)) [
  | inl there ↦ rw there (extend_keeps P eq set rows h)
  | inr new ↦ rw new (extend_keeps P eq (set ++ a ∷ []) rows (Any-append_left P set (a ∷ []) h))
]

pub extend_has :
    {A : Type 0} (eq : A → A → Bool) (set rows : List A)
    → ((a : A) → eq a a ≡ true)
    → All (λ a. Any (λ x. eq x a ≡ true) (extend eq set rows)) rows
unfolding extend
extend_has eq set [] same = tt
extend_has eq set (a ∷ rows) same = elim (Bool-cases (has eq a set)) [
  | inl there ↦ (
    rw there (extend_keeps (λ x. eq x a ≡ true) eq set rows (has-Any eq a set there)),
    All-imp (λ b h. rw there h) rows (extend_has eq set rows same),
  )
  | inr new ↦ (
    rw new (
        extend_keeps (λ x. eq x a ≡ true) eq (set ++ a ∷ []) rows
          (Any-append_right (λ x. eq x a ≡ true) set (a ∷ []) (inl (same a)))),
    All-imp (λ b h. rw new h) rows (extend_has eq (set ++ a ∷ []) rows same),
  )
]

pub address_transaction_eq_refl : (a : AddressTransaction) → address_transaction_eq a a ≡ true
unfolding address_transaction_eq
address_transaction_eq_refl a = rw (bytes_eq_refl a.address) (bytes_eq_refl a.transaction_id)

pub script_transaction_eq_refl : (a : ScriptTransaction) → script_transaction_eq a a ≡ true
unfolding script_transaction_eq
script_transaction_eq_refl a =
    rw (bytes_eq_refl a.script_public_key) (bytes_eq_refl a.transaction_id)
