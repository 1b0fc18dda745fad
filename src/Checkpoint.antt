-- ===== src/Checkpoint.antt =====
-- indexer/src/checkpoint.rs: `process_checkpoints`. `step` is one round of its loop for a message
-- that the checkpoint queue gave; a round without a message only sleeps. An `Instant` is a number
-- of nanoseconds. The round reads the clock up to four times, so that is part of its input, and so
-- is the answer of the database to the one statement that the round may send.
pub mod Safety
mod Tests
pub mod Progress
use native.Mathlib.Decide.{ℕ_discrete}
use simply_kaspa_indexer.Prelude.{
  ℕ, ◌-◌, ◌*◌, ◌/◌, Bool, true, false, ◌&&◌, ◌||◌, Option, none, some, List, [], ◌∷◌, ltb,
  if◌then◌else◌, Bytes, add_u64, ◌>>=◌,
}
use simply_kaspa_indexer.Cli.{contains}
use simply_kaspa_indexer.Models.{Bytes-discrete}

pub data CheckpointOrigin : Type 0 where
  blocks transactions vcp initial : CheckpointOrigin

pub record CheckpointBlock : Type 0 where
  pub origin : CheckpointOrigin
  pub hash : Bytes
  pub timestamp : ℕ
  pub daa_score : ℕ
  pub blue_score : ℕ

abbrev pub checkpoint_save_interval : ℕ
checkpoint_save_interval = 60

abbrev pub checkpoint_warn_interval : ℕ
checkpoint_warn_interval = 120

abbrev pub checkpoint_failed_timeout : ℕ
checkpoint_failed_timeout = 600

-- `a.duration_since(b).as_secs()`, which is 0 where `b` is later.
abbrev pub seconds_since : ℕ → ℕ → ℕ
seconds_since a b = (a - b) / 1_000_000_000

-- What the rest of the program fixes at startup.
pub record Setup : Type 0 where
  pub disable_transaction_processing : Bool
  pub net_bps : ℕ

-- The local variables. `saved` lists the blocks whose hash was written to the database, newest
-- first; its head is also what `metrics.block_checkpoint` holds.
pub record State : Type 0 where
  pub last_saved : ℕ
  pub last_warned : ℕ
  pub candidate : Option CheckpointBlock
  pub last_block_blue_score : ℕ
  pub last_tx_blue_score : ℕ
  pub txs_processed : List Bytes
  pub cp_ok_txs : Bool
  pub saved : List CheckpointBlock

pub record Round : Type 0 where
  pub message : CheckpointBlock
  pub select_time : ℕ
  pub selected_time : ℕ
  pub check_time : ℕ
  pub reset_time : ℕ
  pub save_succeeds : Bool

-- `HashSet::contains` and `HashSet::insert`.
abbrev pub known : Bytes → List Bytes → Bool
known = contains Bytes-discrete

abbrev remember : Bytes → List Bytes → List Bytes
remember h hashes = if known h hashes then hashes else h ∷ hashes

unfoldable pub init : ℕ → State
init now = record {
  last_saved = now;
  last_warned = now;
  candidate = none;
  last_block_blue_score = 0;
  last_tx_blue_score = 0;
  txs_processed = [];
  cp_ok_txs = false;
  saved = [];
}

abbrev is_none {ℓ} : {A : Type ℓ} → Option A → Bool
is_none none = true
is_none (some a) = false

select : Round → State → State
select r s =
    if is_none s.candidate
      && ltb checkpoint_save_interval (seconds_since r.select_time s.last_saved)
    then record s { candidate = some r.message; last_warned = r.selected_time; cp_ok_txs = false }
    else s

-- The `match` on the message's origin.
receive_as : CheckpointOrigin → Round → State → State
unfolding select
receive_as blocks r s = select r (record s { last_block_blue_score = r.message.blue_score })
receive_as transactions r s = record s {
  last_tx_blue_score = r.message.blue_score;
  txs_processed = remember r.message.hash s.txs_processed;
}
receive_as vcp r s = s
receive_as initial r s = s

unfoldable pub receive : Round → State → State
unfolding receive_as
receive r s = receive_as r.message.origin r s

-- The branch that writes the checkpoint; a refused write ends the program.
save : Round → CheckpointBlock → State → Option State
save r checkpoint s =
    if r.save_succeeds
    then some
        (record s { saved = checkpoint ∷ s.saved; last_saved = r.reset_time; candidate = none })
    else none

-- The branches that keep waiting or give up.
wait : Setup → Round → CheckpointBlock → State → Option State
wait setup r checkpoint s =
    if ltb checkpoint_warn_interval (seconds_since r.check_time s.last_warned)
    then some (record s { last_warned = r.reset_time; candidate = some checkpoint })
    else (do
      limit ← add_u64 checkpoint.blue_score (checkpoint_failed_timeout * setup.net_bps)
      some (
          if ltb limit s.last_block_blue_score
            && (setup.disable_transaction_processing || ltb limit s.last_tx_blue_score)
          then record s { last_saved = r.reset_time; candidate = none }
          else record s { candidate = some checkpoint }))

-- `if let Some(checkpoint) = checkpoint_candidate`.
settle : Setup → Round → Option CheckpointBlock → State → Option State
unfolding save wait
settle setup r none s = some s
settle setup r (some checkpoint) s =
    let ok =
      s.cp_ok_txs
      || (setup.disable_transaction_processing || known checkpoint.hash s.txs_processed) in
    let s' = record s { cp_ok_txs = ok; txs_processed = [] } in
    if ok then save r checkpoint s' else wait setup r checkpoint s'

unfoldable pub step : Setup → Round → State → Option State
unfolding receive settle
step setup r s = let s' = receive r s in settle setup r s'.candidate s'

-- The loop over the messages popped until shutdown.
unfoldable pub run : Setup → List Round → State → Option State
run setup [] s = some s
run setup (r ∷ rs) s = do s' ← step setup r s; run setup rs s'
