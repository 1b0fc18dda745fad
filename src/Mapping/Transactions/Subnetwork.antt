-- ===== src/Mapping/Transactions/Subnetwork.antt =====
-- What `compress_subnetwork_id` keeps of an identifier.
use simply_kaspa_indexer.Prelude.{
  length, subst, Bool-cases, inl, Option-cases, ℕ, zero, suc, ◌-◌, ◌≡◌, refl, ap, Option, none,
  some, [], ◌∷◌, ◌++◌, Bytes, arith, Option-cases, Bool-cases, ◌==◌, inl, inr, take,
}
use simply_kaspa_indexer.Mapping.Transactions.{compress_subnetwork_id, rposition}

abbrev zeros : ℕ → Bytes
zeros zero = []
zeros (suc n) = 0 ∷ zeros n

-- The identifier of `n` bytes that a column stands for.
abbrev pub decompress : ℕ → Option Bytes → Bytes
decompress n none = zeros n
decompress n (some c) = c ++ zeros (n - length c)

minus_suc : (a b : ℕ) → suc a - suc b ≡ a - b
minus_suc a b = omega arith

minus_one : (a : ℕ) → suc a - 1 ≡ a
minus_one a = omega arith

abbrev prefix : Bytes → Option ℕ → Option Bytes
prefix bs none = none
prefix bs (some i) = some (take (suc i) bs)

-- The column and the length of an identifier give the identifier back.
pub decompress-compress_subnetwork_id :
    (bytes : Bytes) → decompress (length bytes) (compress_subnetwork_id bytes) ≡ bytes
unfolding compress_subnetwork_id rposition
decompress-compress_subnetwork_id [] = refl
decompress-compress_subnetwork_id (b ∷ bs) =
    let rest = decompress-compress_subnetwork_id bs in
    let kept : (r : Option ℕ)
        → rposition bs ≡ r
        → decompress (length bs) (compress_subnetwork_id bs) ≡ bs
        → decompress (length bs) (prefix bs r) ≡ bs =
      λ r e h. subst (λ r. decompress (length bs) (prefix bs r) ≡ bs) e h in
    elim (Option-cases (rposition bs)) [
      | inl e ↦
          let tail : zeros (length bs) ≡ bs = kept none e rest in
          elim (Bool-cases (b == 0)) [
            | inl z ↦ rw (e, compress_subnetwork_id, rposition, z) (ground (arith, tail))
            | inr nz ↦
                rw (e, compress_subnetwork_id, rposition, nz)
                  (rw (minus_one (length bs)) (ap (◌∷◌ b) tail))
          ]
      | inr (i, e) ↦
          let tail : decompress (length bs) (some (take (suc i) bs)) ≡ bs = kept (some i) e rest in
          rw (e, compress_subnetwork_id, rposition)
            (rw (minus_suc (length bs) (length (take (suc i) bs))) (ap (◌∷◌ b) tail))
    ]
