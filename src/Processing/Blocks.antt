-- ===== src/Processing/Blocks.antt =====
-- indexer/src/blocks/process_blocks.rs. A round is a block that the queue gave; where there is none
-- the loop only sleeps. `scaled n` is `(n as f64 * batch_scale) as usize`.
pub mod Pending
pub mod Inserted
pub mod Order
pub mod Commit
pub mod Flow
pub mod Tests
use simply_kaspa_indexer.Prelude.{
  ℕ, Bool, not, ◌&&◌, ◌||◌, Option, none, some, List, [], ◌∷◌, ◌++◌, map, ℤ, as_i64, ltb, leb,
  length, is_empty, if◌then◌else◌, ◌>>=◌,
}
use simply_kaspa_indexer.Cli.{CliArgs, blocks_table, block_parent_table, is_disabled}
use simply_kaspa_indexer.Models.{Block, BlockParent}
use simply_kaspa_indexer.Checkpoint.{CheckpointBlock, CheckpointOrigin, seconds_since}
use simply_kaspa_indexer.Mapping.Rpc.{RpcBlock}
use simply_kaspa_indexer.Mapping.Mapper.{KaspaDbMapper, map_block, map_block_parents}
use simply_kaspa_indexer.Database.Insert.{Insertion}
use simply_kaspa_indexer.Database.Batches.{insert_blocks, insert_block_parents}
use simply_kaspa_indexer.Processing.{
  Event, reported, MetricsBlock, metrics_block, update_last_block, last, send,
}

pub record Setup : Type 0 where
  pub args : CliArgs
  pub mapper : KaspaDbMapper
  pub scaled : ℕ → ℕ
  pub datable : ℤ → Bool

abbrev pub disable_blocks : Setup → Bool
disable_blocks setup = is_disabled setup.args blocks_table

abbrev pub disable_block_relations : Setup → Bool
disable_block_relations setup = is_disabled setup.args block_parent_table

-- The local variables, and `metrics.components.block_processor.last_block`.
pub record State : Type 0 where
  pub blocks : List Block
  pub blocks_parents : List BlockParent
  pub checkpoint_blocks : List CheckpointBlock
  pub last_commit_time : ℕ
  pub last_block : Option MetricsBlock

-- A block, the clock at the test for a commit and at its end, and what the database accepts.
pub record Round : Type 0 where
  pub block : RpcBlock
  pub check_time : ℕ
  pub commit_time : ℕ
  pub accepts : Insertion → Bool

unfoldable pub init : ℕ → State
init now = record {
  blocks = [];
  blocks_parents = [];
  checkpoint_blocks = [];
  last_commit_time = now;
  last_block = none;
}

unfoldable pub checkpoint_of : RpcBlock → CheckpointBlock
checkpoint_of block = record {
  origin = CheckpointOrigin.blocks;
  hash = block.header.hash;
  timestamp = block.header.timestamp;
  daa_score = block.header.daa_score;
  blue_score = block.header.blue_score;
}

-- The rows of a block, none where the table is disabled; the option is the panic of `map_block`.
unfoldable pub block_rows : Setup → RpcBlock → Option (List Block)
unfolding map_block
block_rows setup block =
    if disable_blocks setup
    then some []
    else (map_block setup.mapper block >>= λ row. some (row ∷ []))

unfoldable pub parent_rows : Setup → RpcBlock → List BlockParent
unfolding map_block_parents
parent_rows setup block =
    if disable_block_relations setup then [] else map_block_parents setup.mapper block

unfoldable pub receive : Setup → RpcBlock → State → Option State
unfolding block_rows parent_rows checkpoint_of
receive setup block s = block_rows setup block >>= λ rows. some (record s {
  blocks = s.blocks ++ rows;
  blocks_parents = s.blocks_parents ++ parent_rows setup block;
  checkpoint_blocks = s.checkpoint_blocks ++ checkpoint_of block ∷ [];
})

-- Whether the rows so far are committed.
unfoldable pub is_due : Setup → ℕ → State → Bool
is_due setup now s =
    leb (setup.scaled 800) (length s.checkpoint_blocks)
    || (not (is_empty s.checkpoint_blocks) && ltb 2 (seconds_since now s.last_commit_time))

unfoldable pub block_calls : Setup → State → Option (List Insertion)
unfolding insert_blocks
block_calls setup s = if disable_blocks setup then some [] else insert_blocks setup.scaled s.blocks

unfoldable pub parent_calls : Setup → State → Option (List Insertion)
unfolding insert_block_parents
parent_calls setup s =
    if disable_block_relations setup
    then some []
    else insert_block_parents setup.scaled s.blocks_parents

unfoldable pub insert_rows : Setup → (Insertion → Bool) → State → Option (List Event)
unfolding block_calls parent_calls send
insert_rows setup accepts s = do
  calls ← block_calls setup s
  of_blocks ← send accepts calls
  calls' ← parent_calls setup s
  of_parents ← send accepts calls'
  some (of_blocks ++ of_parents)

-- A full checkpoint queue delays the reports, and changes nothing else.
unfoldable pub commit : Setup → Round → State → Option (State × List Event)
unfolding insert_rows last metrics_block update_last_block
commit setup r s = do
  last_checkpoint_block ← last s.checkpoint_blocks
  events ← insert_rows setup r.accepts s
  shown ← metrics_block setup.datable last_checkpoint_block
  some (
    record {
      blocks = [];
      blocks_parents = [];
      checkpoint_blocks = [];
      last_commit_time = r.commit_time;
      last_block = update_last_block shown s.last_block;
    },
    events ++ map reported s.checkpoint_blocks,
  )

unfoldable pub step : Setup → Round → State → Option (State × List Event)
unfolding receive is_due commit
step setup r s = do
  s' ← receive setup r.block s
  if is_due setup r.check_time s' then commit setup r s' else some (s', [])

-- The loop over the blocks popped until shutdown.
unfoldable pub process_blocks : Setup → List Round → State → Option (State × List Event)
process_blocks setup [] s = some (s, [])
process_blocks setup (r ∷ rs) s = do
  (s', events) ← step setup r s
  (s'', later) ← process_blocks setup rs s'
  some (s'', events ++ later)
