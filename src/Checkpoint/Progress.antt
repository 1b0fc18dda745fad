-- ===== src/Checkpoint/Progress.antt =====
-- A selected block is written as soon as the transaction processor reports it.
use simply_kaspa_indexer.Prelude.{
  ℕ, ◌+◌, ◌*◌, ◌≤◌, ◌<◌, ◌≡◌, refl, true, Option, none, some, List, [], ◌∷◌, arith, ◌⊎◌, inl, inr,
  All, Any, IfSome, Option-cases, u64_limit, add_u64, add_u64-fits,
}
use simply_kaspa_indexer.Cli.Contains.{contains_self}
use simply_kaspa_indexer.Models.{Bytes-discrete}
use simply_kaspa_indexer.Checkpoint.{
  CheckpointOrigin, blocks, transactions, vcp, initial, CheckpointBlock, Setup, State, Round, known,
  receive_as, receive, settle, step, run, checkpoint_failed_timeout,
}

module _ (setup : Setup) where
  abbrev pub limit : CheckpointBlock → ℕ
  limit c = c.blue_score + checkpoint_failed_timeout * setup.net_bps

  -- The database accepts the write, and the limit of the message's block is a u64.
  pub record IsCalm (r : Round) : Type 0 where
    pub accepted : r.save_succeeds ≡ true
    pub fits : limit r.message < u64_limit

  abbrev Fits : State → Type 0
  Fits s = IfSome (λ c. limit c < u64_limit) s.candidate

  receive_as-Fits :
      (o : CheckpointOrigin) (r : Round) (s : State) → IsCalm r → Fits s → Fits (receive_as o r s)
  unfolding receive_as
  receive_as-Fits blocks r s q f = ground arith
  receive_as-Fits transactions r s q f = f
  receive_as-Fits vcp r s q f = f
  receive_as-Fits initial r s q f = f

  settle_total :
      (r : Round) (o : Option CheckpointBlock) (s : State)
      → IsCalm r
      → s.candidate ≡ o
      → IfSome (λ c. limit c < u64_limit) o
      → (s' : State) × (settle setup r o s ≡ some s') × Fits s'
  unfolding settle
  settle_total r none s q e f = (s, refl, ground arith)
  settle_total r (some c) s q e f = elim (Option-cases (settle setup r (some c) s)) [
    | inl panic ↦
        ground (arith, add_u64-fits c.blue_score (checkpoint_failed_timeout * setup.net_bps))
    | inr (s', done) ↦ (s', done, ground arith)
  ]

  -- `c` is written, whenever the settled block is `c` and its transactions are known.
  settle_saves :
      (r : Round) (c : CheckpointBlock) (s : State) {s' : State}
      → known c.hash s.txs_processed ≡ true
      → settle setup r (some c) s ≡ some s'
      → Any (λ x. c ≡ x) s'.saved
  unfolding settle
  settle_saves r c s k e = ground arith

  settle_keeps :
      (r : Round) (c : CheckpointBlock) (s : State) {s' : State}
      → s.last_block_blue_score ≤ limit c
      → settle setup r (some c) s ≡ some s'
      → (Any (λ x. c ≡ x) s'.saved)
        ⊎ ((s'.candidate ≡ some c) × (s'.last_block_blue_score ≡ s.last_block_blue_score))
  unfolding settle add_u64
  settle_keeps r c s h e = ground arith

  receive_as_keeps :
      (o : CheckpointOrigin) (r : Round) (c : CheckpointBlock) (s : State)
      → s.candidate ≡ some c
      → s.last_block_blue_score ≤ limit c
      → (o ≡ blocks → r.message.blue_score ≤ limit c)
      → ((receive_as o r s).candidate ≡ some c)
        × ((receive_as o r s).last_block_blue_score ≤ limit c)
  unfolding receive_as
  receive_as_keeps blocks r c s e h b = ground (arith, b refl)
  receive_as_keeps transactions r c s e h b = (e, h)
  receive_as_keeps vcp r c s e h b = (e, h)
  receive_as_keeps initial r c s e h b = (e, h)

  receive_as_knows :
      (o : CheckpointOrigin) (r : Round) (s : State)
      → o ≡ transactions
      → known r.message.hash (receive_as o r s).txs_processed ≡ true
  unfolding receive_as
  receive_as_knows transactions r s e =
      ground (arith, contains_self Bytes-discrete r.message.hash s.txs_processed)
  receive_as_knows blocks r s e = cc
  receive_as_knows vcp r s e = cc
  receive_as_knows initial r s e = cc

  -- What was written stays written.
  settle-saved_mono :
      (r : Round) (c : CheckpointBlock) (o : Option CheckpointBlock) (s : State) {s' : State}
      → settle setup r o s ≡ some s'
      → Any (λ x. c ≡ x) s.saved
      → Any (λ x. c ≡ x) s'.saved
  unfolding settle
  settle-saved_mono r c none s e h = ground arith
  settle-saved_mono r c (some d) s e h = ground arith

  receive_as-saved :
      (o : CheckpointOrigin) (r : Round) (s : State) → (receive_as o r s).saved ≡ s.saved
  unfolding receive_as
  receive_as-saved blocks r s = ground arith
  receive_as-saved transactions r s = refl
  receive_as-saved vcp r s = refl
  receive_as-saved initial r s = refl

  -- Where the block `c` stands after a round.
  abbrev Stands : CheckpointBlock → State → Type 0
  Stands c s =
      Any (λ x. c ≡ x) s.saved ⊎ ((s.candidate ≡ some c) × (s.last_block_blue_score ≤ limit c))

  step_total :
      (r : Round) (s : State)
      → IsCalm r
      → Fits s
      → (s' : State) × (step setup r s ≡ some s') × Fits s'
  unfolding step receive
  step_total r s q f =
      settle_total r _ (receive r s) q refl (receive_as-Fits r.message.origin r s q f)

  step-Stands :
      (r : Round) (c : CheckpointBlock) (s : State) {s' : State}
      → (r.message.origin ≡ blocks → r.message.blue_score ≤ limit c)
      → step setup r s ≡ some s'
      → Stands c s
      → Stands c s'
  unfolding step receive
  step-Stands r c s b e (inl done) =
      inl
        (settle-saved_mono r c _ (receive r s) e (rw (receive_as-saved r.message.origin r s) done))
  step-Stands r c s b e (inr (pending, low)) =
      let (pending', low') = receive_as_keeps r.message.origin r c s pending low b in
      ground (arith, settle_keeps r c (receive r s) low' (rw pending' at e))

  step_saves :
      (r : Round) (c : CheckpointBlock) (s : State) {s' : State}
      → (r.message.origin ≡ blocks → r.message.blue_score ≤ limit c)
      → (r.message.origin ≡ transactions) × (r.message.hash ≡ c.hash)
      → step setup r s ≡ some s'
      → Stands c s
      → Any (λ x. c ≡ x) s'.saved
  unfolding step receive
  step_saves r c s b t e (inl done) =
      settle-saved_mono r c _ (receive r s) e (rw (receive_as-saved r.message.origin r s) done)
  step_saves r c s b t e (inr (pending, low)) =
      let (pending', low') = receive_as_keeps r.message.origin r c s pending low b in
      settle_saves r c (receive r s) (rw (← t.1) (receive_as_knows r.message.origin r s t.0))
        (rw pending' at e)

  run_total :
      (rs : List Round) (s : State)
      → All IsCalm rs
      → Fits s
      → (s' : State) × (run setup rs s ≡ some s') × Fits s'
  unfolding run
  run_total [] s q f = (s, refl, f)
  run_total (r ∷ rs) s q f =
      let (t, stepped, fits) = step_total r s q.0 f in
      let (s', done, fits') = run_total rs t q.1 fits in (s', rw stepped done, fits')

  step-saved_mono :
      (r : Round) (c : CheckpointBlock) (s : State) {s' : State}
      → step setup r s ≡ some s'
      → Any (λ x. c ≡ x) s.saved
      → Any (λ x. c ≡ x) s'.saved
  unfolding step receive
  step-saved_mono r c s e h =
      settle-saved_mono r c _ (receive r s) e (rw (receive_as-saved r.message.origin r s) h)

  run-saved_mono :
      (rs : List Round) (c : CheckpointBlock) (s : State) {s' : State}
      → run setup rs s ≡ some s'
      → Any (λ x. c ≡ x) s.saved
      → Any (λ x. c ≡ x) s'.saved
  unfolding run
  run-saved_mono [] c s e h = ground arith
  run-saved_mono (r ∷ rs) c s e h = elim (Option-cases (step setup r s)) [
    | inl panic ↦ cc (rw panic at e)
    | inr (t, stepped) ↦ run-saved_mono rs c t (rw stepped at e) (step-saved_mono r c s stepped h)
  ]

  abbrev pub InTime : CheckpointBlock → Round → Type 0
  InTime c r = r.message.origin ≡ blocks → r.message.blue_score ≤ limit c

  abbrev pub ReportsTxsOf : CheckpointBlock → Round → Type 0
  ReportsTxsOf c r = (r.message.origin ≡ transactions) × (r.message.hash ≡ c.hash)

  run_saves :
      (rs : List Round) (c : CheckpointBlock) (s : State) {s' : State}
      → All (InTime c) rs
      → Any (ReportsTxsOf c) rs
      → Stands c s
      → run setup rs s ≡ some s'
      → Any (λ x. c ≡ x) s'.saved
  unfolding run
  run_saves [] c s b t h e = absurd t
  run_saves (r ∷ rs) c s b t h e = elim (Option-cases (step setup r s)) [
    | inl panic ↦ cc (rw panic at e)
    | inr (u, stepped) ↦ elim t [
      | inl now ↦ run-saved_mono rs c u (rw stepped at e) (step_saves r c s b.0 now stepped h)
      | inr later ↦ run_saves rs c u b.1 later (step-Stands r c s b.0 stepped h) (rw stepped at e)
    ]
  ]

  -- A block that is the selected candidate is written, and the program does not stop, once the
  -- transaction processor reports it: whatever other messages arrive before and after and
  -- whatever the clock says, provided that the database accepts the writes, no sum of a blue
  -- score and the timeout leaves u64, and the blocks reported up to the end stay within the
  -- timeout of the candidate.
  pub run_saves_candidate :
      (rs : List Round) (c : CheckpointBlock) (s : State)
      → s.candidate ≡ some c
      → limit c < u64_limit
      → s.last_block_blue_score ≤ limit c
      → All IsCalm rs
      → All (InTime c) rs
      → Any (ReportsTxsOf c) rs
      → (s' : State) × (run setup rs s ≡ some s') × Any (λ x. c ≡ x) s'.saved
  run_saves_candidate rs c s e small low calm b t =
      let (s', done, _) = run_total rs s calm (rw e small) in
      (s', done, run_saves rs c s b t (inr (e, low)) done)
