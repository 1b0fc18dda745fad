-- ===== src/Processing/Blocks/Flow.antt =====
-- Nothing is lost, added or put out of order between the queue of blocks, the statements and the
-- checkpoint queue.
use simply_kaspa_indexer.Prelude.{
  ◌++◌, ℕ, ◌∙◌, sym, subst, Bool, Bool-cases, some, append_assoc, append-nil, gather, gather-append,
  inl, inr, >>=-eq_some, some-injective, gather, ◌≡◌, ap, List, [], ◌∷◌, map,
}
use simply_kaspa_indexer.Database.Insert.{Insertion}
use simply_kaspa_indexer.Mapping.Rpc.{RpcBlock}
use simply_kaspa_indexer.Processing.{last, metrics_block, Event, reported}
use simply_kaspa_indexer.Processing.Blocks.{
  Setup, disable_blocks, disable_block_relations, State, Round, init, checkpoint_of, block_rows,
  parent_rows, receive, is_due, insert_rows, commit, step, process_blocks,
}
use simply_kaspa_indexer.Processing.Blocks.Commit.{
  report, inserted_blocks, inserted_parents, enabled_rows, enabled_rows_nil, brought,
  reports_committed, blocks_committed, parents_committed, commit_empties, receive_adds,
  enabled_blocks_added, enabled_parents_added,
}

-- One kind of output: what `f` reads of the events, what waits in the state, and what a block gives.
module _ (setup : Setup) {A : Type 0} (f : Event → List A) (pending : State → List A)
    (new : RpcBlock → List A)
    (committed : (accepts : Insertion → Bool) (s : State) (events : List Event)
      → insert_rows setup accepts s ≡ some events
      → gather f (events ++ map reported s.checkpoint_blocks) ≡ pending s)
    (emptied : (r : Round) (s s' : State) (events : List Event)
      → commit setup r s ≡ some (s', events)
      → pending s' ≡ [])
    (received : (block : RpcBlock) (s s' : State)
      → receive setup block s ≡ some s'
      → pending s' ≡ pending s ++ new block) where
  commit-flow :
      (r : Round) (s : State) {s' : State} {events : List Event}
      → commit setup r s ≡ some (s', events)
      → gather f events ++ pending s' ≡ pending s
  unfolding commit
  commit-flow r s e =
      let (c, _, e1) = >>=-eq_some (last s.checkpoint_blocks) _ e in
      let (inserted, done, e2) = >>=-eq_some (insert_rows setup r.accepts s) _ e1 in
      let (shown, _, e3) = >>=-eq_some (metrics_block setup.datable c) _ e2 in
      rw (emptied r s _ _ e, append-nil)
        (subst (λ events. gather f events ≡ pending s) (ap (λ p. p.1) (some-injective e3))
          (committed r.accepts s inserted done))

  step-flow :
      (r : Round) (s : State) {s' : State} {events : List Event}
      → step setup r s ≡ some (s', events)
      → gather f events ++ pending s' ≡ pending s ++ new r.block
  unfolding step
  step-flow r s e =
      let (t, got, e1) = >>=-eq_some (receive setup r.block s) _ e in
      elim (Bool-cases (is_due setup r.check_time t)) [
        | inl due ↦ commit-flow r t (rw due at e1) ∙ received r.block s t got
        | inr early ↦
            let final = some-injective (rw early at e1) in
            subst (λ p. gather f p.1 ++ pending p.0 ≡ pending s ++ new r.block) final
              (received r.block s t got)
      ]

  process-flow :
      (rs : List Round) (s : State) {s' : State} {events : List Event}
      → process_blocks setup rs s ≡ some (s', events)
      → gather f events ++ pending s' ≡ pending s ++ gather (λ r. new r.block) rs
  unfolding process_blocks
  process-flow [] s e =
      subst (λ p. gather f p.1 ++ pending p.0 ≡ pending s ++ []) (some-injective e)
        (sym (append-nil (pending s)))
  process-flow (r ∷ rs) s e =
      let ((t, first), stepped, e1) = >>=-eq_some (step setup r s) _ e in
      let ((t', later), run, e2) = >>=-eq_some (process_blocks setup rs t) _ e1 in
      subst (λ p. gather f p.1 ++ pending p.0 ≡ pending s ++ gather (λ r. new r.block) (r ∷ rs))
        (some-injective e2)
        (ap (λ xs. xs ++ pending t') (gather-append f first later)
          ∙ append_assoc (gather f first) (gather f later) (pending t')
          ∙ ap (λ xs. gather f first ++ xs) (process-flow rs t run)
          ∙ sym (append_assoc (gather f first) (pending t) _)
          ∙ ap (λ xs. xs ++ gather (λ r. new r.block) rs) (step-flow r s stepped)
          ∙ append_assoc (pending s) (new r.block) _)

-- For each run of the block processor that does not panic: the reported blocks, then those that
-- still wait, are the blocks of the queue in order, each once; and so are the inserted rows, then those
-- that wait, for the table of blocks and for that of their parents, where these are not disabled.
pub process_blocks-flow :
    (setup : Setup) (rs : List Round) (now : ℕ) {s : State} {events : List Event}
    → process_blocks setup rs (init now) ≡ some (s, events)
    → (gather report events ++ s.checkpoint_blocks ≡ gather (λ r. checkpoint_of r.block ∷ []) rs)
      × (gather inserted_blocks events ++ enabled_rows (disable_blocks setup) s.blocks
          ≡ gather (λ r. brought (block_rows setup r.block)) rs)
      × (gather inserted_parents events
            ++ enabled_rows (disable_block_relations setup) s.blocks_parents
          ≡ gather (λ r. parent_rows setup r.block) rs)
unfolding init
process_blocks-flow setup rs now e = (
  process-flow setup report (λ s. s.checkpoint_blocks) (λ b. checkpoint_of b ∷ [])
      (reports_committed setup) (λ r s s' events done. (commit_empties setup r s s' events done).0)
      (λ b s s' got. (receive_adds setup b s s' got).0) rs (init now) e,
  process-flow setup inserted_blocks (λ s. enabled_rows (disable_blocks setup) s.blocks)
        (λ b. brought (block_rows setup b)) (blocks_committed setup)
        (λ r s s' events done.
          ap (enabled_rows (disable_blocks setup)) (commit_empties setup r s s' events done).1
          ∙ enabled_rows_nil (disable_blocks setup))
        (enabled_blocks_added setup) rs (init now) e
      ∙ ap (λ xs. xs ++ gather (λ r. brought (block_rows setup r.block)) rs)
          (enabled_rows_nil (disable_blocks setup)),
  process-flow setup inserted_parents
        (λ s. enabled_rows (disable_block_relations setup) s.blocks_parents) (parent_rows setup)
        (parents_committed setup)
        (λ r s s' events done.
          ap (enabled_rows (disable_block_relations setup))
            (commit_empties setup r s s' events done).2
          ∙ enabled_rows_nil (disable_block_relations setup))
        (enabled_parents_added setup) rs (init now) e
      ∙ ap (λ xs. xs ++ gather (λ r. parent_rows setup r.block) rs)
          (enabled_rows_nil (disable_block_relations setup)),
)
