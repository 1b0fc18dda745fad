-- ===== src/Processing/Blocks/Commit.antt =====
-- What a commit does to each kind of output, and what a block adds to it.
use simply_kaspa_indexer.Prelude.{
  none, ◌++◌, ◌∙◌, subst, Bool, Bool-cases, true, false, Option, some, append-nil, gather,
  gather-append, inl, inr, >>=-eq_some, some-injective, gather, ◌≡◌, refl, ap, List, [], ◌∷◌, map,
}
use simply_kaspa_indexer.Models.{Block, BlockParent}
use simply_kaspa_indexer.Checkpoint.{CheckpointBlock}
use simply_kaspa_indexer.Database.Batches.{
  chunks, insert_blocks, insert_block_parents, blocks_size, block_parents_size,
}
use simply_kaspa_indexer.Database.Insert.{Insertion, into_blocks, into_block_parent}
use simply_kaspa_indexer.Mapping.Rpc.{RpcBlock}
use simply_kaspa_indexer.Processing.Gather.{gather-chunks, gather-calls, gather-other}
use simply_kaspa_indexer.Processing.Blocks.Inserted.{insert_rows_lem}
use simply_kaspa_indexer.Processing.{last, metrics_block, Event, sent, reported}
use simply_kaspa_indexer.Processing.Blocks.{
  Setup, disable_blocks, disable_block_relations, State, Round, checkpoint_of, block_rows,
  parent_rows, block_calls, parent_calls, receive, insert_rows, commit,
}

abbrev pub report : Event → List CheckpointBlock
report (reported c) = c ∷ []
report _ = []

abbrev pub inserted_blocks : Event → List Block
inserted_blocks (sent (into_blocks rows)) = rows
inserted_blocks _ = []

abbrev pub inserted_parents : Event → List BlockParent
inserted_parents (sent (into_block_parent rows)) = rows
inserted_parents _ = []

gather-reported_none :
    {B : Type 0} (f : Event → List B) (cs : List CheckpointBlock)
    → ((c : CheckpointBlock) → f (reported c) ≡ [])
    → gather f (map reported cs) ≡ []
gather-reported_none f [] h = refl
gather-reported_none f (c ∷ cs) h = rw (h c) (gather-reported_none f cs h)

gather-report : (cs : List CheckpointBlock) → gather report (map reported cs) ≡ cs
gather-report [] = refl
gather-report (c ∷ cs) = ap (◌∷◌ c) (gather-report cs)

gather-report_sent : (calls : List Insertion) → gather report (map sent calls) ≡ []
gather-report_sent [] = refl
gather-report_sent (i ∷ calls) = gather-report_sent calls

-- The rows that wait for a table, none if it is disabled.
abbrev pub enabled_rows : {A : Type 0} → Bool → List A → List A
enabled_rows true rows = []
enabled_rows false rows = rows

pub enabled_rows_nil : {A : Type 0} (disabled : Bool) → enabled_rows {A = A} disabled [] ≡ []
enabled_rows_nil true = refl
enabled_rows_nil false = refl

-- The rows that a block brings.
abbrev pub brought : {A : Type 0} → Option (List A) → List A
brought none = []
brought (some rows) = rows

module _ (setup : Setup) where
  block_calls-flow :
      (s : State) {calls : List Insertion}
      → block_calls setup s ≡ some calls
      → (gather inserted_blocks (map sent calls) ≡ enabled_rows (disable_blocks setup) s.blocks)
        × (gather inserted_parents (map sent calls) ≡ [])
  unfolding block_calls insert_blocks
  block_calls-flow s e = elim (Bool-cases (disable_blocks setup)) [
    | inl off ↦
        let none_sent = some-injective (rw off at e) in
        rw off (
          subst
            (λ calls.
              (gather inserted_blocks (map sent calls) ≡ [])
              × (gather inserted_parents (map sent calls) ≡ []))
            none_sent (refl, refl))
    | inr on ↦
        let (parts, cut, made) =
          >>=-eq_some (chunks (blocks_size setup.scaled) s.blocks) _ (rw on at e) in
        rw on (
          subst
            (λ calls.
              (gather inserted_blocks (map sent calls) ≡ s.blocks)
              × (gather inserted_parents (map sent calls) ≡ []))
            (some-injective made)
            (
              gather-calls inserted_blocks into_blocks parts (λ part. refl)
                  ∙ gather-chunks (blocks_size setup.scaled) s.blocks cut,
              gather-other inserted_parents into_blocks parts (λ part. refl),
            ))
  ]

  parent_calls-flow :
      (s : State) {calls : List Insertion}
      → parent_calls setup s ≡ some calls
      → (gather inserted_parents (map sent calls)
          ≡ enabled_rows (disable_block_relations setup) s.blocks_parents)
        × (gather inserted_blocks (map sent calls) ≡ [])
  unfolding parent_calls insert_block_parents
  parent_calls-flow s e = elim (Bool-cases (disable_block_relations setup)) [
    | inl off ↦
        let none_sent = some-injective (rw off at e) in
        rw off (
          subst
            (λ calls.
              (gather inserted_parents (map sent calls) ≡ [])
              × (gather inserted_blocks (map sent calls) ≡ []))
            none_sent (refl, refl))
    | inr on ↦
        let (parts, cut, made) =
          >>=-eq_some (chunks (block_parents_size setup.scaled) s.blocks_parents) _ (rw on at e) in
        rw on (
          subst
            (λ calls.
              (gather inserted_parents (map sent calls) ≡ s.blocks_parents)
              × (gather inserted_blocks (map sent calls) ≡ []))
            (some-injective made)
            (
              gather-calls inserted_parents into_block_parent parts (λ part. refl)
                  ∙ gather-chunks (block_parents_size setup.scaled) s.blocks_parents cut,
              gather-other inserted_blocks into_block_parent parts (λ part. refl),
            ))
  ]

  -- What `f` reads of a commit.
  gather-commit :
      {A : Type 0} (f : Event → List A) (calls calls' : List Insertion) (cs : List CheckpointBlock)
      (events : List Event)
      → events ≡ map sent calls ++ map sent calls'
      → gather f (events ++ map reported cs)
        ≡ (gather f (map sent calls) ++ gather f (map sent calls')) ++ gather f (map reported cs)
  gather-commit f calls calls' cs events e =
      gather-append f events (map reported cs)
      ∙ ap (λ xs. xs ++ gather f (map reported cs))
          (ap (gather f) e ∙ gather-append f (map sent calls) (map sent calls'))

  pub blocks_committed :
      (accepts : Insertion → Bool) (s : State) (events : List Event)
      → insert_rows setup accepts s ≡ some events
      → gather inserted_blocks (events ++ map reported s.checkpoint_blocks)
        ≡ enabled_rows (disable_blocks setup) s.blocks
  blocks_committed accepts s events e =
      let (calls, calls', cut, cut', done) = insert_rows_lem setup accepts s e in
      gather-commit inserted_blocks calls calls' s.checkpoint_blocks events done
      ∙ rw
          (
            gather-reported_none inserted_blocks s.checkpoint_blocks (λ c. refl),
            append-nil,
            (parent_calls-flow s cut').1,
            append-nil,
          )
          (block_calls-flow s cut).0

  pub parents_committed :
      (accepts : Insertion → Bool) (s : State) (events : List Event)
      → insert_rows setup accepts s ≡ some events
      → gather inserted_parents (events ++ map reported s.checkpoint_blocks)
        ≡ enabled_rows (disable_block_relations setup) s.blocks_parents
  parents_committed accepts s events e =
      let (calls, calls', cut, cut', done) = insert_rows_lem setup accepts s e in
      gather-commit inserted_parents calls calls' s.checkpoint_blocks events done
      ∙ rw
          (
            gather-reported_none inserted_parents s.checkpoint_blocks (λ c. refl),
            append-nil,
            (block_calls-flow s cut).1,
          )
          (parent_calls-flow s cut').0

  pub reports_committed :
      (accepts : Insertion → Bool) (s : State) (events : List Event)
      → insert_rows setup accepts s ≡ some events
      → gather report (events ++ map reported s.checkpoint_blocks) ≡ s.checkpoint_blocks
  reports_committed accepts s events e =
      let (calls, calls', cut, cut', done) = insert_rows_lem setup accepts s e in
      gather-commit report calls calls' s.checkpoint_blocks events done
      ∙ rw (gather-report_sent calls, gather-report_sent calls') (gather-report s.checkpoint_blocks)

  pub commit_empties :
      (r : Round) (s s' : State) (events : List Event)
      → commit setup r s ≡ some (s', events)
      → (s'.checkpoint_blocks ≡ []) × (s'.blocks ≡ []) × (s'.blocks_parents ≡ [])
  unfolding commit
  commit_empties r s s' events e =
      let (c, _, e1) = >>=-eq_some (last s.checkpoint_blocks) _ e in
      let (inserted, done, e2) = >>=-eq_some (insert_rows setup r.accepts s) _ e1 in
      let (shown, _, e3) = >>=-eq_some (metrics_block setup.datable c) _ e2 in
      subst (λ p. (p.0.checkpoint_blocks ≡ []) × (p.0.blocks ≡ []) × (p.0.blocks_parents ≡ []))
        (some-injective e3) (refl, refl, refl)

  pub receive_adds :
      (block : RpcBlock) (s s' : State)
      → receive setup block s ≡ some s'
      → (s'.checkpoint_blocks ≡ s.checkpoint_blocks ++ checkpoint_of block ∷ [])
        × (s'.blocks ≡ s.blocks ++ brought (block_rows setup block))
        × (s'.blocks_parents ≡ s.blocks_parents ++ parent_rows setup block)
  unfolding receive
  receive_adds block s s' e =
      let (rows, found, done) = >>=-eq_some (block_rows setup block) _ e in
      rw found (
        subst
          (λ t.
            (t.checkpoint_blocks ≡ s.checkpoint_blocks ++ checkpoint_of block ∷ [])
            × (t.blocks ≡ s.blocks ++ rows)
            × (t.blocks_parents ≡ s.blocks_parents ++ parent_rows setup block))
          (some-injective done) (refl, refl, refl))

  pub enabled_blocks_added :
      (block : RpcBlock) (s s' : State)
      → receive setup block s ≡ some s'
      → enabled_rows (disable_blocks setup) s'.blocks
        ≡ enabled_rows (disable_blocks setup) s.blocks ++ brought (block_rows setup block)
  unfolding block_rows
  enabled_blocks_added block s s' e = elim (Bool-cases (disable_blocks setup)) [
    | inl off ↦ rw off refl
    | inr on ↦ rw on (rw on at (receive_adds block s s' e).1)
  ]

  pub enabled_parents_added :
      (block : RpcBlock) (s s' : State)
      → receive setup block s ≡ some s'
      → enabled_rows (disable_block_relations setup) s'.blocks_parents
        ≡ enabled_rows (disable_block_relations setup) s.blocks_parents ++ parent_rows setup block
  unfolding parent_rows
  enabled_parents_added block s s' e = elim (Bool-cases (disable_block_relations setup)) [
    | inl off ↦ rw off refl
    | inr on ↦ rw on (rw on at (receive_adds block s s' e).2)
  ]
