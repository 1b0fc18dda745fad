-- ===== src/Cli/Contains.antt =====
-- `contains` finds exactly the members.
use simply_kaspa_indexer.Prelude.{
  ◌≡◌, refl, sym, subst, true, List, [], ◌∷◌, arith, All, Any, inl, inr,
}
use simply_kaspa_indexer.Cli.{contains}

module _ {ℓ} {A : Type ℓ} (dec : Discrete A) where
  -- What holds of all members holds of what `contains` finds.
  pub contains-All :
      (P : A → Type 0) (a : A) (xs : List A) → contains dec a xs ≡ true → All P xs → P a
  unfolding contains
  contains-All P a [] h all = cc
  contains-All P a (x ∷ xs) h all = elim (dec a x) [
    | yes e ↦ subst P (sym e) all.0
    | no ne ↦ contains-All P a xs (ground arith) all.1
  ]

  pub contains_self : (a : A) (xs : List A) → contains dec a (a ∷ xs) ≡ true
  unfolding contains
  contains_self a xs = elim (dec a a) [ yes e ↦ ground arith | no ne ↦ absurd (ne refl) ]

pub contains-Any :
    {A : Type 0} (dec : Discrete A) (a : A) (xs : List A)
    → contains dec a xs ≡ true
    → Any (λ x. a ≡ x) xs
unfolding contains
contains-Any dec a [] h = cc
contains-Any dec a (x ∷ xs) h = elim (dec a x) [
  | yes e ↦ inl e
  | no ne ↦ inr (contains-Any dec a xs (ground arith))
]
