-- ===== src/Checkpoint/Safety.antt =====
-- A checkpoint is written only for a block that the block processor and, unless it is disabled,
-- the transaction processor have reported.
use simply_kaspa_indexer.Prelude.{
  All-Any, Any-imp, Any, All-imp, ◌≡◌, refl, true, false, Option, none, some, List, [], ◌∷◌, arith,
  Bytes, ◌⊎◌, inl, inr, All, IfSome, Option-cases,
}
use simply_kaspa_indexer.Cli.Contains.{contains-All}
use simply_kaspa_indexer.Models.{Bytes-discrete}
use simply_kaspa_indexer.Checkpoint.{
  ℕ, init, CheckpointOrigin, blocks, transactions, vcp, initial, CheckpointBlock, Setup, State,
  Round, receive_as, receive, settle, step, run,
}

-- `B` holds of the blocks that the block processor reported, and `T` of the hashes that the
-- transaction processor reported.
module _ (setup : Setup) (B : CheckpointBlock → Type 0) (T : Bytes → Type 0) where
  abbrev pub Justified : CheckpointBlock → Type 0
  Justified c = B c × ((setup.disable_transaction_processing ≡ true) ⊎ T c.hash)

  pub record Inv (s : State) : Type 0 where
    pub candidate_seen : IfSome B s.candidate
    pub pending : IfSome (λ _. s.cp_ok_txs ≡ false) s.candidate
    pub processed_seen : All T s.txs_processed
    pub saved_justified : All Justified s.saved

  abbrev pub Reported : CheckpointBlock → Type 0
  Reported m = (m.origin ≡ blocks → B m) × (m.origin ≡ transactions → T m.hash)

  receive_as-Inv :
      (o : CheckpointOrigin) (r : Round) (s : State)
      → r.message.origin ≡ o
      → Reported r.message
      → Inv s
      → Inv (receive_as o r s)
  unfolding receive_as
  receive_as-Inv blocks r s e h v = ground (arith, h.0 e)
  receive_as-Inv transactions r s e h v = ground (arith, h.1 e)
  receive_as-Inv vcp r s e h v = v
  receive_as-Inv initial r s e h v = v

  settle-Inv :
      (r : Round) (o : Option CheckpointBlock) (s : State) {s' : State}
      → s.candidate ≡ o
      → Inv s
      → settle setup r o s ≡ some s'
      → Inv s'
  unfolding settle
  settle-Inv r none s e v h = ground arith
  settle-Inv r (some c) s e v h =
      ground (arith, contains-All Bytes-discrete T c.hash s.txs_processed)

  step-Inv :
      (r : Round) (s : State) {s' : State}
      → Reported r.message
      → Inv s
      → step setup r s ≡ some s'
      → Inv s'
  unfolding step receive
  step-Inv r s h v e = settle-Inv r _ (receive r s) refl (receive_as-Inv _ r s refl h v) e

  run-Inv :
      (rs : List Round) (s : State) {s' : State}
      → All (λ (r : Round). Reported r.message) rs
      → Inv s
      → run setup rs s ≡ some s'
      → Inv s'
  unfolding run
  run-Inv [] s h v e = ground arith
  run-Inv (r ∷ rs) s h v e = elim (Option-cases (step setup r s)) [
    | inl panic ↦ cc (rw panic at e)
    | inr (t, stepped) ↦ run-Inv rs t h.1 (step-Inv r s h.0 v stepped) (rw stepped at e)
  ]

abbrev pub ReportedBlock : List Round → CheckpointBlock → Type 0
ReportedBlock rs c = Any (λ (r : Round). (r.message ≡ c) × (c.origin ≡ blocks)) rs

abbrev pub ReportedTxs : List Round → Bytes → Type 0
ReportedTxs rs h = Any (λ (r : Round). (r.message.origin ≡ transactions) × (r.message.hash ≡ h)) rs

All-Reported :
    (setup : Setup) (rs : List Round)
    → All (λ (r : Round). Reported setup (ReportedBlock rs) (ReportedTxs rs) r.message) rs
All-Reported setup rs =
    All-imp
      (λ r member. (
        (λ o. Any-imp (λ q e. (ground arith, o)) rs member),
        (λ o. Any-imp (λ q e. (ground arith, ground arith)) rs member),
      ))
      rs (All-Any rs)

-- Whatever messages arrive and whatever the clock and the database answer, each checkpoint that
-- has been written is the block of a message from the block processor that arrived before, and,
-- unless transaction processing is disabled, the transaction processor had reported a block of
-- the same hash.
pub run-saved :
    (setup : Setup) (rs : List Round) (now : ℕ) {s : State}
    → run setup rs (init now) ≡ some s
    → All (Justified setup (ReportedBlock rs) (ReportedTxs rs)) s.saved
unfolding init
run-saved setup rs now e =
    (run-Inv setup (ReportedBlock rs) (ReportedTxs rs) rs (init now) (All-Reported setup rs)
      (record { candidate_seen = tt; pending = tt; processed_seen = tt; saved_justified = tt })
      e).saved_justified
