-- ===== src/Database/Client/Pruned.antt =====
-- What the client's pruning calls leave, whichever of their attempts ended in a deadlock.
use simply_kaspa_indexer.Prelude.{
  ℕ, ◌<◌, ◌≤◌, ◌≡◌, refl, sym, ◌∙◌, ap, subst, Bool, true, not, List, inl, inr, arith, Bool-cases,
  u64_limit,
}
use simply_kaspa_indexer.Database.Retry.{Answer, Outcome, deadlocked, retry_on_deadlock_attempts}
use simply_kaspa_indexer.Database.Delete.{
  Tables, PruneResult, ok, err, panic, more_fuel, retain, count, prune_with, DeleteWhere,
}
use simply_kaspa_indexer.Database.Delete.Loop.{IsDelete, Prunes, prune_with-Prunes}
use simply_kaspa_indexer.Database.Client.{
  Server, PruneError, failed, panicked, exhausted, database_code, Sent, Prune, noted, attempt,
  result_of, retried,
}

-- The rows that do not expire, in their order.
abbrev rest : {R : Type 0} → (R → Bool) → List R → List R
rest expired rows = retain (λ r. not (expired r)) rows

-- Tables in which only expired rows are missing from `rows`.
abbrev pub Left : {R : Type 0} → (List R → Tables) → (R → Bool) → List R → Tables → Type 0
Left {R} put expired rows t =
    (rows' : List R) × (t ≡ put rows')
    × (rest expired rows' ≡ rest expired rows)
    × (count expired rows' ≤ count expired rows)

-- As `Prunes`, but only what the last attempt deleted is counted.
abbrev pub PrunesAtLast :
    {R : Type 0} → (List R → Tables) → (R → Bool) → List R → PruneResult → Type 0
PrunesAtLast put expired rows (ok n t) = (n ≤ count expired rows) × (t ≡ put (rest expired rows))
PrunesAtLast put expired rows (err t) = Left put expired rows t
PrunesAtLast put expired rows panic = ⊥
PrunesAtLast put expired rows more_fuel = ⊥

module _ {R : Type 0} (put : List R → Tables) (expired : R → Bool) (rows : List R) where
  Prunes-AtLast :
      (rows' : List R) (r : PruneResult)
      → rest expired rows' ≡ rest expired rows
      → count expired rows' ≤ count expired rows
      → Prunes put expired rows' r
      → PrunesAtLast put expired rows r
  Prunes-AtLast rows' (ok n t) same fewer h = (omega arith, h.1 ∙ ap put same)
  Prunes-AtLast rows' (err t) same fewer (rows'', e, same', fewer') =
      (rows'', e, same' ∙ same, omega arith)
  Prunes-AtLast rows' panic same fewer h = h
  Prunes-AtLast rows' more_fuel same fewer h = h

  module _ (server : Server) (f : Prune)
      (one : (i : ℕ) (t : Tables)
        → Left put expired rows t
        → PrunesAtLast put expired rows (f (server.delete_where i) t)) where
    -- What an attempt has left.
    abbrev Answered : Sent → Type 0
    Answered (a, s) = PrunesAtLast put expired rows (result_of server (Outcome.returned a s))

    noted-Answered :
        (i : ℕ) (t : Tables) (r : PruneResult)
        → PrunesAtLast put expired rows r
        → Answered (noted server i t r)
    noted-Answered i t (ok n t') h = h
    noted-Answered i t (err t') h = h
    noted-Answered i t panic h = h
    noted-Answered i t more_fuel h = h

    again :
        (a : Answer PruneError) (s : ℕ × Tables)
        → Answered (a, s)
        → deadlocked database_code a ≡ true
        → Left put expired rows s.1
    again (Answer.ok n) s h e = absurd (ground (arith, e))
    again (Answer.err (failed c)) s h e = h
    again (Answer.err panicked) s h e = absurd h
    again (Answer.err exhausted) s h e = absurd h

    attempt-Answered : (s : ℕ × Tables) → Left put expired rows s.1 → Answered (attempt server f s)
    attempt-Answered s left = noted-Answered s.0 s.1 _ (one s.0 s.1 left)

    pub retried-AtLast :
        (t : Tables) → Left put expired rows t → PrunesAtLast put expired rows (retried server f t)
    unfolding retried
    retried-AtLast t left =
        let start : ℕ × Tables = (1, t) in
        let send = attempt server f in
        let h₁ = attempt-Answered start left in
        rw (retry_on_deadlock_attempts database_code send start)
          (elim (Bool-cases (deadlocked database_code (send start).0)) [
            | inr e ↦ rw e h₁
            | inl e ↦
                let left₁ = again (send start).0 (send start).1 h₁ e in
                let h₂ = attempt-Answered (send start).1 left₁ in
                elim (Bool-cases (deadlocked database_code (send (send start).1).0)) [
                  | inr e₂ ↦ rw (e, e₂) h₂
                  | inl e₂ ↦
                      rw (e, e₂)
                        (attempt-Answered (send (send start).1).1
                          (again (send (send start).1).0 (send (send start).1).1 h₂ e₂))
                ]
          ])

module _ {R : Type 0} (put : List R → Tables) (expired : R → Bool) (rows : List R) where
  -- With statements that keep to what PostgreSQL documents, a call that runs `f` on the table of `put` deletes exactly the expired rows
  -- if it succeeds, and no other row if it fails.
  pub retried-prunes :
      (server : Server) (f : Prune) (fuel batch_size : ℕ)
      → ((d : DeleteWhere) (rows' : List R)
          → f d (put rows') ≡ prune_with d fuel put expired batch_size rows')
      → ((i : ℕ) → IsDelete (server.delete_where i))
      → 0 < batch_size
      → count expired rows < fuel
      → count expired rows < u64_limit
      → PrunesAtLast put expired rows (retried server f (put rows))
  retried-prunes server f fuel batch_size same sound positive enough fits =
      retried-AtLast put expired rows server f
        (λ i t left.
          let (rows', e, same', fewer) = left in
          subst (PrunesAtLast put expired rows)
            (sym (ap (f (server.delete_where i)) e ∙ same (server.delete_where i) rows'))
            (Prunes-AtLast put expired rows rows' _ same' fewer (
              prune_with-Prunes (server.delete_where i) fuel put expired batch_size rows' (sound i)
                positive (omega arith) (omega arith))))
        (put rows) (rows, refl, refl, omega arith)
