-- ===== src/Processing/Blocks/Order.antt =====
-- A block is reported only behind its rows.
use simply_kaspa_indexer.Prelude.{
  Any-imp, ℕ, ℕ, ap, map, some-injective, Bool-cases, [], ◌∷◌, All-Any, sym, subst, Bool,
  >>=-eq_some, ◌≡◌, some, List, All, Any, All-imp, inl, inr,
}
use simply_kaspa_indexer.Checkpoint.{CheckpointBlock}
use simply_kaspa_indexer.Mapping.Rpc.{RpcBlock}
use simply_kaspa_indexer.Database.Batches.Calls.{InBlocks, InBlockParent}
use simply_kaspa_indexer.Processing.{Event, sent, reported, last, metrics_block}
use simply_kaspa_indexer.Database.Insert.{Insertion}
use simply_kaspa_indexer.Processing.Order.{
  Sent, after, Any-after, Ordered, Ordered-append, Ordered-sent, Ordered-reported,
}
use simply_kaspa_indexer.Processing.Blocks.{
  Setup, disable_blocks, disable_block_relations, State, Round, init, receive, is_due, insert_rows,
  commit, step, process_blocks,
}
use simply_kaspa_indexer.Processing.Blocks.Pending.{CoveredBy, CoveredBy-imp, Inv, receive-Inv}
use simply_kaspa_indexer.Processing.Blocks.Inserted.{insert_rows_lem, insert_rows-Any}

module _ (setup : Setup) (In : RpcBlock → Type 0) where
  -- The statements of the events so far have inserted the rows of the reported block.
  abbrev pub BlockSent : List Event → CheckpointBlock → Type 0
  BlockSent seen =
      CoveredBy setup In (λ row. Any (Sent (InBlocks (λ x. row ≡ x))) seen)
        (λ row. Any (Sent (InBlockParent (λ x. row ≡ x))) seen)

  BlockSent-mono :
      (seen : List Event) (e : Event) (c : CheckpointBlock)
      → BlockSent seen c
      → BlockSent (e ∷ seen) c
  BlockSent-mono seen e c = CoveredBy-imp setup In c (λ row h. inr h) (λ row h. inr h)

  insert_rows-Ordered :
      (accepts : Insertion → Bool) (s : State) (seen : List Event) {events : List Event}
      → insert_rows setup accepts s ≡ some events
      → Ordered BlockSent seen events
  insert_rows-Ordered accepts s seen e =
      let (calls, calls', cut, cut', done) = insert_rows_lem setup accepts s e in
      subst (Ordered BlockSent seen) (sym done) (
        Ordered-append BlockSent seen (map sent calls) (map sent calls')
          (Ordered-sent BlockSent seen calls)
          (Ordered-sent BlockSent (after (map sent calls) seen) calls'))

  -- Pending blocks are covered by the events of the commit.
  commit_covers :
      (accepts : Insertion → Bool) (s : State) (seen events : List Event)
      → insert_rows setup accepts s ≡ some events
      → Inv setup In s
      → All (BlockSent (after events seen)) s.checkpoint_blocks
  commit_covers accepts s seen events e v =
      All-imp
        (λ c h. (
          h.0,
          h.1,
          h.2,
          (elim (Bool-cases (disable_blocks setup)) [
            | inl off ↦ inl off
            | inr on ↦ elim h.3 [
              | inl off ↦ inl off
              | inr (row, mapped, here) ↦ inr (
                row,
                mapped,
                Any-after _ events seen ((insert_rows-Any setup accepts s e).0 on row here),
              )
            ]
          ]),
          (elim (Bool-cases (disable_block_relations setup)) [
            | inl off ↦ inl off
            | inr on ↦ elim h.4 [
              | inl off ↦ inl off
              | inr here ↦ inr (
                  All-imp
                    (λ row k.
                      Any-after _ events seen ((insert_rows-Any setup accepts s e).1 on row k))
                    _ here)
            ]
          ]),
        ))
        s.checkpoint_blocks v

  commit-Ordered :
      (r : Round) (s : State) (seen : List Event) {s' : State} {events : List Event}
      → commit setup r s ≡ some (s', events)
      → Inv setup In s
      → Inv setup In s' × Ordered BlockSent seen events
  unfolding commit
  commit-Ordered r s seen e v =
      let (c, _, e1) = >>=-eq_some (last s.checkpoint_blocks) _ e in
      let (inserted, done, e2) = >>=-eq_some (insert_rows setup r.accepts s) _ e1 in
      let (shown, _, e3) = >>=-eq_some (metrics_block setup.datable c) _ e2 in
      let final = some-injective e3 in
      (
        subst (Inv setup In) (ap (λ p. p.0) final) tt,
        subst (Ordered BlockSent seen) (ap (λ p. p.1) final) (
            Ordered-append BlockSent seen inserted (map reported s.checkpoint_blocks)
              (insert_rows-Ordered r.accepts s seen done)
              (Ordered-reported BlockSent (after inserted seen) s.checkpoint_blocks BlockSent-mono
                (commit_covers r.accepts s seen inserted done v))),
      )

  step-Ordered :
      (r : Round) (s : State) (seen : List Event) {s' : State} {events : List Event}
      → In r.block
      → step setup r s ≡ some (s', events)
      → Inv setup In s
      → Inv setup In s' × Ordered BlockSent seen events
  unfolding step
  step-Ordered r s seen here e v =
      let (t, received, e1) = >>=-eq_some (receive setup r.block s) _ e in
      let v' = receive-Inv setup In r.block s here received v in
      elim (Bool-cases (is_due setup r.check_time t)) [
        | inl due ↦ commit-Ordered r t seen (rw due at e1) v'
        | inr early ↦
            let final = some-injective (rw early at e1) in
            (
              subst (Inv setup In) (ap (λ p. p.0) final) v',
              subst (Ordered BlockSent seen) (ap (λ p. p.1) final) tt,
            )
      ]

  process_blocks-Ordered_from :
      (rs : List Round) (s : State) (seen : List Event) {s' : State} {events : List Event}
      → All (λ (r : Round). In r.block) rs
      → process_blocks setup rs s ≡ some (s', events)
      → Inv setup In s
      → Ordered BlockSent seen events
  unfolding process_blocks
  process_blocks-Ordered_from [] s seen all e v =
      subst (Ordered BlockSent seen) (ap (λ p. p.1) (some-injective e)) tt
  process_blocks-Ordered_from (r ∷ rs) s seen all e v =
      let ((t, first), stepped, e1) = >>=-eq_some (step setup r s) _ e in
      let ((t', later), run, e2) = >>=-eq_some (process_blocks setup rs t) _ e1 in
      let (v', ordered) = step-Ordered r s seen all.0 stepped v in
      subst (Ordered BlockSent seen) (ap (λ p. p.1) (some-injective e2)) (
        Ordered-append BlockSent seen first later ordered
          (process_blocks-Ordered_from rs t (after first seen) all.1 run v'))

-- The blocks of the rounds.
abbrev pub Arrived : List Round → RpcBlock → Type 0
Arrived rs block = Any (λ (r : Round). r.block ≡ block) rs

-- Whatever blocks arrive, and whatever the clock and the database answer, the block processor reports
-- to the checkpoint queue only blocks that arrived, and each only behind accepted statements that hold
-- the block's row and the rows of its parents, unless their table is disabled.
pub process_blocks-Ordered :
    (setup : Setup) (rs : List Round) (now : ℕ) {s : State} {events : List Event}
    → process_blocks setup rs (init now) ≡ some (s, events)
    → Ordered (BlockSent setup (Arrived rs)) [] events
unfolding init
process_blocks-Ordered setup rs now e =
    process_blocks-Ordered_from setup (Arrived rs) rs (init now) []
      (All-imp (λ r member. Any-imp (λ q same. ap (λ x. x.block) (sym same)) rs member) rs
        (All-Any rs))
      e tt
