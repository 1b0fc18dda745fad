-- ===== src/Database/Delete/Loop.antt =====
-- What the pruning loop does, given what PostgreSQL documents of a DELETE with a LIMIT.
use simply_kaspa_indexer.Prelude.{
  inr, inl, ℕ, zero, suc, ◌+◌, ◌<◌, ◌≤◌, ◌≡◌, refl, sym, ◌∙◌, ap, min, Bool, not, some, List, [],
  ◌∷◌, arith, add_u64-fits, ◌==◌, u64_limit, Option-cases, Bool-cases,
}
use simply_kaspa_indexer.Database.Delete.{
  Pruned, done, failed, overflowed, out_of_fuel, prune_rows, retain, count, DeleteWhere, Tables,
  PruneResult, ok, err, panic, more_fuel, put_back, prune_with,
}

-- A statement that succeeds deletes as many of the expired rows as there are, up to the limit, and
-- no other row.
pub record IsDelete (delete_where : DeleteWhere) : Type 1 where
  pub deleted :
      (R : Type 0) (expired : R → Bool) (limit : ℕ) (rows rows' : List R) (n : ℕ)
      → delete_where R expired limit rows ≡ some (rows', n)
      → (n ≡ min limit (count expired rows))
        × (count expired rows' + n ≡ count expired rows)
        × (retain (λ r. not (expired r)) rows' ≡ retain (λ r. not (expired r)) rows)

retain_none :
    {R : Type 0} (p : R → Bool) (rows : List R)
    → count p rows ≡ 0
    → retain (λ r. not (p r)) rows ≡ rows
unfolding retain count
retain_none p [] h = refl
retain_none p (r ∷ rows) h = elim (Bool-cases (p r)) [
  | inl e ↦ ground arith
  | inr e ↦ rw e (ap (◌∷◌ r) (retain_none p rows (ground arith)))
]

-- How the loop ends: all expired rows are gone and counted, or a statement failed. Either way the
-- other rows are all there.
abbrev pub Ends : {R : Type 0} → (R → Bool) → ℕ → List R → Pruned R → Type 0
Ends expired total rows (done n rows') =
    (n ≡ total + count expired rows) × (rows' ≡ retain (λ r. not (expired r)) rows)
Ends expired total rows (failed rows') =
    (retain (λ r. not (expired r)) rows' ≡ retain (λ r. not (expired r)) rows)
    × (count expired rows' ≤ count expired rows)
Ends expired total rows overflowed = ⊥
Ends expired total rows out_of_fuel = ⊥

Ends-step :
    {R : Type 0} (expired : R → Bool) (total n : ℕ) (rows rows' : List R) (r : Pruned R)
    → count expired rows' + n ≡ count expired rows
    → retain (λ r. not (expired r)) rows' ≡ retain (λ r. not (expired r)) rows
    → Ends expired (total + n) rows' r
    → Ends expired total rows r
Ends-step expired total n rows rows' (done m t) c k h = (omega arith, h.1 ∙ k)
Ends-step expired total n rows rows' (failed t) c k h = (h.0 ∙ k, let bound = h.1 in omega arith)
Ends-step expired total n rows rows' overflowed c k h = h
Ends-step expired total n rows rows' out_of_fuel c k h = h

module _ (delete_where : DeleteWhere) (sound : IsDelete delete_where) {R : Type 0}
    (expired : R → Bool) (limit : ℕ) (positive : 0 < limit) where
  prune_rows-Ends :
      (fuel total : ℕ) (rows : List R)
      → count expired rows < fuel
      → total + count expired rows < u64_limit
      → Ends expired total rows (prune_rows (delete_where R expired limit) fuel total rows)
  unfolding prune_rows
  prune_rows-Ends zero total rows enough fits = elim enough [ ]
  prune_rows-Ends (suc fuel) total rows enough fits =
      elim (Option-cases (delete_where R expired limit rows)) [
        | inl e ↦ rw (e, prune_rows) (refl, omega arith)
        | inr ((rows', n), e) ↦
            let (taken, counted, kept) = sound.deleted R expired limit rows rows' n e in
            elim (Bool-cases (n == 0)) [
              | inl z ↦
                  rw (e, prune_rows, z)
                    (ground arith, sym (retain_none expired rows' (ground arith)) ∙ kept)
              | inr nz ↦
                  rw (e, prune_rows, nz, add_u64-fits total n (omega arith))
                    (Ends-step expired total n rows rows' _ counted kept
                      (prune_rows-Ends fuel (total + n) rows' (ground arith) (omega arith)))
            ]
      ]

-- The same of the tables: `get` and `put` are the table that is pruned.
abbrev pub Prunes : {R : Type 0} → (List R → Tables) → (R → Bool) → List R → PruneResult → Type 0
Prunes put expired rows (ok n t) =
    (n ≡ count expired rows) × (t ≡ put (retain (λ r. not (expired r)) rows))
Prunes {R} put expired rows (err t) =
    (rows' : List R) × (t ≡ put rows')
    × (retain (λ r. not (expired r)) rows' ≡ retain (λ r. not (expired r)) rows)
    × (count expired rows' ≤ count expired rows)
Prunes put expired rows panic = ⊥
Prunes put expired rows more_fuel = ⊥

put_back-Prunes :
    {R : Type 0} (put : List R → Tables) (expired : R → Bool) (rows : List R) (r : Pruned R)
    → Ends expired 0 rows r
    → Prunes put expired rows (put_back put r)
put_back-Prunes put expired rows (done n rows') h = (omega arith, ap put h.1)
put_back-Prunes put expired rows (failed rows') h = (rows', refl, h.0, h.1)
put_back-Prunes put expired rows overflowed h = h
put_back-Prunes put expired rows out_of_fuel h = h

-- With a positive batch size, one round of fuel more than there are expired rows, and fewer of
-- those than 2^64, the function ends without a panic. If it succeeds, exactly the expired rows are gone
-- and their number is returned; if a statement fails, every other row
-- is still there, and there are no more expired rows than before.
pub prune_with-Prunes :
    (delete_where : DeleteWhere) (fuel : ℕ) {R : Type 0} (put : List R → Tables)
    (expired : R → Bool) (batch_size : ℕ) (rows : List R)
    → IsDelete delete_where
    → 0 < batch_size
    → count expired rows < fuel
    → count expired rows < u64_limit
    → Prunes put expired rows (prune_with delete_where fuel put expired batch_size rows)
unfolding prune_with
prune_with-Prunes delete_where fuel put expired batch_size rows sound positive enough fits =
    put_back-Prunes put expired rows _ (
      prune_rows-Ends delete_where sound expired batch_size positive fuel 0 rows enough
        (omega arith))
