-- ===== src/Processing.antt =====
-- indexer/src/blocks/process_blocks.rs and indexer/src/transactions/process_transactions.rs: the two
-- processors that insert rows and then report blocks to the checkpoint processor, and the part of
-- indexer/src/web/model/metrics.rs that they write.
pub mod Order
pub mod Gather
pub mod Blocks
pub mod Transactions
pub mod Saved
pub mod Samples
use simply_kaspa_indexer.Prelude.{
  ℕ, Bool, true, false, Option, none, some, List, [], ◌∷◌, Bytes, ℤ, as_i64, ltb, if◌then◌else◌,
  ◌>>=◌,
}
use simply_kaspa_indexer.Checkpoint.{CheckpointBlock}
use simply_kaspa_indexer.Database.Insert.{Insertion}

-- What a processor does that others see: the statements that the database accepted, and the messages
-- pushed to the checkpoint queue.
pub data Event : Type 0 where
  sent : Insertion → Event
  reported : CheckpointBlock → Event

-- `Vec::last`.
unfoldable pub last : {A : Type 0} → List A → Option A
last [] = none
last (x ∷ []) = some x
last (x ∷ y ∷ ys) = last (y ∷ ys)

-- The statements of a function that inserts, if the database accepts them all; an error panics.
unfoldable pub send : (Insertion → Bool) → List Insertion → Option (List Event)
send accepts [] = some []
send accepts (i ∷ calls) =
    let rest = send accepts calls in
    if accepts i then (rest >>= λ events. some (sent i ∷ events)) else none

-- `date_time` is left out, since it is the time of `timestamp`.
pub record MetricsBlock : Type 0 where
  pub hash : Bytes
  pub timestamp : ℕ
  pub daa_score : ℕ
  pub blue_score : ℕ

-- `From<CheckpointBlock> for MetricsBlock`, where `datable` says which timestamps chrono takes.
unfoldable pub metrics_block : (ℤ → Bool) → CheckpointBlock → Option MetricsBlock
metrics_block datable c =
    if datable (as_i64 c.timestamp)
    then some (record {
      hash = c.hash;
      timestamp = c.timestamp;
      daa_score = c.daa_score;
      blue_score = c.blue_score;
    })
    else none

unfoldable pub update_last_block : MetricsBlock → Option MetricsBlock → Option MetricsBlock
update_last_block last_block none = some last_block
update_last_block last_block (some b) =
    if ltb b.daa_score last_block.daa_score then some last_block else some b
