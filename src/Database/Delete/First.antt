-- ===== src/Database/Delete/First.antt =====
-- A DELETE with a LIMIT that takes the first expired rows, and that it is one.
use mathlib.Core.Option.{some-injective}
use simply_kaspa_indexer.Prelude.{
  sym, ap, inr, inl, ◌+◌, Bool-cases, if◌then◌else◌, ℕ, zero, suc, ◌≡◌, refl, some, List, [], ◌∷◌,
  arith, min, Bool, not,
}
use simply_kaspa_indexer.Database.Delete.{DeleteWhere, retain, count}
use simply_kaspa_indexer.Database.Delete.Loop.{IsDelete}

-- The first expired rows, up to the limit, are taken away.
unfoldable pub without_first : {R : Type 0} → (R → Bool) → ℕ → List R → List R
without_first p limit [] = []
without_first p zero (r ∷ rows) = r ∷ rows
without_first p (suc limit) (r ∷ rows) =
    if p r then without_first p limit rows else r ∷ without_first p (suc limit) rows

abbrev pub delete_first : DeleteWhere
delete_first R p limit rows = some (without_first p limit rows, min limit (count p rows))

count-without_first :
    {R : Type 0} (p : R → Bool) (limit : ℕ) (rows : List R)
    → count p (without_first p limit rows) + min limit (count p rows) ≡ count p rows
unfolding count without_first
count-without_first p limit [] = omega arith
count-without_first p zero (r ∷ rows) = omega arith
count-without_first p (suc limit) (r ∷ rows) =
    let rest = count-without_first p limit rows in
    let rest₁ = count-without_first p (suc limit) rows in
    elim (Bool-cases (p r)) [ inl e ↦ ground arith | inr e ↦ ground arith ]

retain-without_first :
    {R : Type 0} (p : R → Bool) (limit : ℕ) (rows : List R)
    → retain (λ r. not (p r)) (without_first p limit rows) ≡ retain (λ r. not (p r)) rows
unfolding retain without_first
retain-without_first p limit [] = refl
retain-without_first p zero (r ∷ rows) = refl
retain-without_first p (suc limit) (r ∷ rows) = elim (Bool-cases (p r)) [
  | inl e ↦ rw e (retain-without_first p limit rows)
  | inr e ↦ rw e (rw e (ap (◌∷◌ r) (retain-without_first p (suc limit) rows)))
]

pub delete_first-IsDelete : IsDelete delete_first
delete_first-IsDelete = record {
  deleted = λ R p limit rows rows' n e.
      let pair = some-injective _ _ e in
      let left : rows' ≡ without_first p limit rows = sym (ap (λ x. x.0) pair) in
      let gone : n ≡ min limit (count p rows) = sym (ap (λ x. x.1) pair) in
      (
        gone,
        rw (left, gone) (count-without_first p limit rows),
        rw left (retain-without_first p limit rows),
      );
}
