-- ===== src/Processing/Saved.antt =====
-- The two processors and the checkpoint processor together: what a written checkpoint promises to a
-- restart that begins at its block.
pub mod Tests
pub mod Prefix
use simply_kaspa_indexer.Prelude.{
  ℕ, ◌≡◌, ◌≢◌, ◌⊎◌, refl, sym, ap, ◌∙◌, subst, Bool, true, false, Option, none, some, List, [], ◌∷◌,
  ◌++◌, Bytes, All, Any, All-imp, All-Any_elim, Any-imp, inl, inr, arith,
}
use simply_kaspa_indexer.Checkpoint.{CheckpointOrigin, CheckpointBlock, blocks, transactions}
use simply_kaspa_indexer.Checkpoint
use simply_kaspa_indexer.Checkpoint.Safety.{Justified, ReportedBlock, ReportedTxs, run-saved}
use simply_kaspa_indexer.Processing.{Event, sent, reported}
use simply_kaspa_indexer.Processing.Blocks
use simply_kaspa_indexer.Processing.Blocks.{process_blocks}
use simply_kaspa_indexer.Processing.Blocks.Order as BlockOrder
use simply_kaspa_indexer.Processing.Blocks.Order.{BlockSent, process_blocks-Ordered}
use simply_kaspa_indexer.Processing.Transactions
use simply_kaspa_indexer.Processing.Transactions.{TransactionData, process_transactions}
use simply_kaspa_indexer.Mapping.Rpc.{RpcBlock}
use simply_kaspa_indexer.Processing.Transactions.Order as TxOrder
use simply_kaspa_indexer.Processing.Order.{Ordered, after, Any-after, Any-after_earlier}
use simply_kaspa_indexer.Processing.Transactions.Cover.{AllRows-imp}
use simply_kaspa_indexer.Processing.Transactions.Cover as TxCover
use simply_kaspa_indexer.Processing.Blocks.Pending as BlockPending
use simply_kaspa_indexer.Processing.Transactions.Order.{
  TxsSent, Recalls, process_transactions-Ordered,
}

-- The third list is the first two, each in its order, in some interleaving.
pub data Interleaved : List Event → List Event → List Event → Type 0 where
  done : Interleaved [] [] []
  left :
      {e : Event} {es fs gs : List Event} → Interleaved es fs gs → Interleaved (e ∷ es) fs (e ∷ gs)
  right :
      {e : Event} {es fs gs : List Event} → Interleaved es fs gs → Interleaved es (e ∷ fs) (e ∷ gs)

module _ (P : Event → Type 0) where
  Any-left : {es fs gs : List Event} → Interleaved es fs gs → Any P es → Any P gs
  Any-left done h = h
  Any-left (left i) (inl p) = inl p
  Any-left (left i) (inr h) = inr (Any-left i h)
  Any-left (right i) h = inr (Any-left i h)

  Any-right : {es fs gs : List Event} → Interleaved es fs gs → Any P fs → Any P gs
  Any-right done h = h
  Any-right (left i) h = inr (Any-right i h)
  Any-right (right i) (inl p) = inl p
  Any-right (right i) (inr h) = inr (Any-right i h)

  Any-either : {es fs gs : List Event} → Interleaved es fs gs → Any P gs → Any P es ⊎ Any P fs
  Any-either done h = absurd h
  Any-either (left i) (inl p) = inl (inl p)
  Any-either (left i) (inr h) = elim (Any-either i h) [ inl l ↦ inl (inr l) | inr r ↦ inr r ]
  Any-either (right i) (inl p) = inr (inl p)
  Any-either (right i) (inr h) = elim (Any-either i h) [ inl l ↦ inl l | inr r ↦ inr (inr r) ]

  Any-after_cases : (es seen : List Event) → Any P (after es seen) → Any P es ⊎ Any P seen
  Any-after_cases [] seen h = inr h
  Any-after_cases (e ∷ es) seen h = elim (Any-after_cases es (e ∷ seen) h) [
    | inl later ↦ inl (inr later)
    | inr (inl now) ↦ inl (inl now)
    | inr (inr was) ↦ inr was
  ]

pub reported-injective : {c d : CheckpointBlock} → reported c ≡ reported d → c ≡ d
reported-injective e = cc

module _ (Cov : List Event → CheckpointBlock → Type 0) where
  Ordered-prefix : (seen es fs : List Event) → Ordered Cov seen (es ++ fs) → Ordered Cov seen es
  Ordered-prefix seen [] fs h = tt
  Ordered-prefix seen (sent i ∷ es) fs h = Ordered-prefix (sent i ∷ seen) es fs h
  Ordered-prefix seen (reported c ∷ es) fs h = (h.0, Ordered-prefix (reported c ∷ seen) es fs h.1)

  covers_later :
      (seen es : List Event) (c : CheckpointBlock)
      → ((seen : List Event) (e : Event) (c : CheckpointBlock) → Cov seen c → Cov (e ∷ seen) c)
      → Cov seen c
      → Cov (after es seen) c
  covers_later seen [] c mono h = h
  covers_later seen (e ∷ es) c mono h = covers_later (e ∷ seen) es c mono (mono seen e c h)

  -- A reported block is covered by the events up to the end.
  Ordered_covers :
      (seen es : List Event) (c : CheckpointBlock)
      → ((seen : List Event) (e : Event) (c : CheckpointBlock) → Cov seen c → Cov (e ∷ seen) c)
      → Ordered Cov seen es
      → Any (λ e. e ≡ reported c) es
      → Cov (after es seen) c
  Ordered_covers seen [] c mono h found = absurd found
  Ordered_covers seen (sent i ∷ es) c mono h (inl same) = cc
  Ordered_covers seen (sent i ∷ es) c mono h (inr found) =
      Ordered_covers (sent i ∷ seen) es c mono h found
  Ordered_covers seen (reported d ∷ es) c mono h (inl same) =
      subst (Cov (after (reported d ∷ es) seen)) (reported-injective same)
        (covers_later (reported d ∷ seen) es d mono (mono seen (reported d) d h.0))
  Ordered_covers seen (reported d ∷ es) c mono h (inr found) =
      Ordered_covers (reported d ∷ seen) es c mono h.1 found

-- What the events say of the rows of a block, wherever they stand.
module _ (setup : Blocks.Setup) (In : RpcBlock → Type 0) where
  BlockSent-from :
      (es gs : List Event) (c : CheckpointBlock)
      → ((P : Event → Type 0) → Any P es → Any P gs)
      → BlockSent setup In es c
      → BlockSent setup In gs c
  BlockSent-from es gs c f = BlockPending.CoveredBy-imp setup In c (λ row. f _) (λ row. f _)

module _ (setup : Transactions.Setup) (In : TransactionData → Type 0) where
  TxsSent-from :
      (es gs : List Event) (c : CheckpointBlock)
      → ((P : Event → Type 0) → Any P es → Any P gs)
      → TxsSent setup In es c
      → TxsSent setup In gs c
  TxsSent-from es gs c f = TxCover.CoveredBy-imp setup In c (
      AllRows-imp setup
        (record { tx_imp = λ row. f _; address_imp = λ row. f _; script_imp = λ row. f _ }))

-- The program: a run of each processor, and the events so far of both, which is some interleaving of
-- what each has done of its run.
pub record History : Type 0 where
  pub block_setup : Blocks.Setup
  pub block_rounds : List Blocks.Round
  pub block_start : ℕ
  pub block_state : Blocks.State
  pub block_events : List Event
  pub block_rest : List Event
  pub block_run :
      process_blocks block_setup block_rounds (Blocks.init block_start)
      ≡ some (block_state, block_events ++ block_rest)
  pub tx_setup : Transactions.Setup
  pub tx_recalls : Recalls tx_setup.contains_key
  pub tx_rounds : List Transactions.Round
  pub tx_start : ℕ
  pub tx_state : Transactions.State
  pub tx_events : List Event
  pub tx_rest : List Event
  pub tx_run :
      process_transactions tx_setup tx_rounds (Transactions.init tx_start)
      ≡ some (tx_state, tx_events ++ tx_rest)
  pub events : List Event
  pub interleaved : Interleaved block_events tx_events events

module _ (h : History) where
  abbrev pub HasBlockRows : CheckpointBlock → Type 0
  HasBlockRows = BlockSent h.block_setup (BlockOrder.Arrived h.block_rounds) h.events

  abbrev pub HasTxRows : CheckpointBlock → Type 0
  HasTxRows = TxsSent h.tx_setup (TxOrder.Arrived h.tx_rounds) h.events

  pub block_reported :
      (c : CheckpointBlock) → Any (λ e. e ≡ reported c) h.block_events → HasBlockRows c
  block_reported c found =
      let In = BlockOrder.Arrived h.block_rounds in
      let Cov = BlockSent h.block_setup In in
      BlockSent-from h.block_setup In (after h.block_events []) h.events c
        (λ P k. elim (Any-after_cases P h.block_events [] k) [
          | inl l ↦ Any-left P h.interleaved l
          | inr r ↦ absurd r
        ])
        (Ordered_covers Cov [] h.block_events c
          (λ seen e c. BlockSent-from h.block_setup In seen (e ∷ seen) c (λ P k. inr k))
          (Ordered-prefix Cov [] h.block_events h.block_rest
            (process_blocks-Ordered h.block_setup h.block_rounds h.block_start h.block_run))
          found)

  tx_reported : (c : CheckpointBlock) → Any (λ e. e ≡ reported c) h.tx_events → HasTxRows c
  tx_reported c found =
      let In = TxOrder.Arrived h.tx_rounds in
      let Cov = TxsSent h.tx_setup In in
      TxsSent-from h.tx_setup In (after h.tx_events []) h.events c
        (λ P k. elim (Any-after_cases P h.tx_events [] k) [
          | inl l ↦ Any-right P h.interleaved l
          | inr r ↦ absurd r
        ])
        (Ordered_covers Cov [] h.tx_events c
          (λ seen e c. TxsSent-from h.tx_setup In seen (e ∷ seen) c (λ P k. inr k))
          (Ordered-prefix Cov [] h.tx_events h.tx_rest
            (process_transactions-Ordered h.tx_setup h.tx_rounds h.tx_start h.tx_recalls h.tx_run))
          found)

  block_origin : (c : CheckpointBlock) → HasBlockRows c → c.origin ≡ blocks
  unfolding Blocks.checkpoint_of
  block_origin c k = ap (λ x. x.origin) (sym k.2)

  tx_origin : (c : CheckpointBlock) → HasTxRows c → c.origin ≡ transactions
  unfolding Transactions.checkpoint_of
  tx_origin c k = ap (λ x. x.origin) (sym k.2)

  -- A message of the checkpoint queue, by its origin.
  pub reported_by_blocks :
      (c : CheckpointBlock)
      → Any (λ e. e ≡ reported c) h.events
      → c.origin ≡ blocks
      → Any (λ e. e ≡ reported c) h.block_events
  reported_by_blocks c found o = elim (Any-either (λ e. e ≡ reported c) h.interleaved found) [
    | inl l ↦ l
    | inr r ↦ let o' = tx_origin c (tx_reported c r) in cc
  ]

  of_blocks :
      (c : CheckpointBlock)
      → Any (λ e. e ≡ reported c) h.events
      → c.origin ≡ blocks
      → HasBlockRows c
  of_blocks c found o = block_reported c (reported_by_blocks c found o)

  of_transactions :
      (c : CheckpointBlock)
      → Any (λ e. e ≡ reported c) h.events
      → c.origin ≡ transactions
      → HasTxRows c
  of_transactions c found o = elim (Any-either (λ e. e ≡ reported c) h.interleaved found) [
    | inl l ↦ let o' = block_origin c (block_reported c l) in cc
    | inr r ↦ tx_reported c r
  ]

-- What the database holds for a block from which the program may start again.
abbrev pub IsRestart : History → Checkpoint.Setup → CheckpointBlock → Type 0
IsRestart h setup c =
    HasBlockRows h c
    × ((setup.disable_transaction_processing ≡ true)
        ⊎ ((c' : CheckpointBlock) × (c'.hash ≡ c.hash) × HasTxRows h c'))

-- At any time of any interleaving of the block processor and the transaction processor: each
-- checkpoint that the checkpoint processor has written so far is a block that arrived and whose rows,
-- with those of its parents, accepted statements have inserted already, and unless transaction
-- processing is disabled, so they have those of the transactions of a block with its hash. The
-- messages that the checkpoint processor has taken must be ones that the two processors have
-- reported, and the cache of ids must not know an id that was not inserted.
pub run-IsRestart :
    (h : History) (setup : Checkpoint.Setup) (rounds : List Checkpoint.Round) (now : ℕ)
    {s : Checkpoint.State}
    → All (λ (r : Checkpoint.Round). Any (λ e. e ≡ reported r.message) h.events) rounds
    → Checkpoint.run setup rounds (Checkpoint.init now) ≡ some s
    → All (IsRestart h setup) s.saved
run-IsRestart h setup rounds now {s} taken e =
    All-imp
      (λ c justified. (
        All-Any_elim
            (λ r found (same, origin).
              of_blocks h c (subst (λ x. Any (λ e. e ≡ reported x) h.events) same found) origin)
            rounds taken justified.0,
        (elim justified.1 [
          | inl off ↦ inl off
          | inr seen ↦ inr (
              All-Any_elim
                (λ r found (origin, same).
                  (r.message, same, of_transactions h r.message found origin))
                rounds taken seen)
        ]),
      ))
      s.saved (run-saved setup rounds now e)
