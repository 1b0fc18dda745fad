-- ===== src/Processing/Blocks/Tests.antt =====
-- Two blocks: the first waits, the second comes three seconds later and is committed with it.
use simply_kaspa_indexer.Prelude.{
  signed, ◌*◌, ℕ, ◌/◌, ◌≡◌, ◌++◌, refl, true, none, some, List, [], ◌∷◌, gather, pos, ◌*◌,
}
use simply_kaspa_indexer.Cli.{is_disabled}
use simply_kaspa_indexer.Models.{Block, BlockParent}
use simply_kaspa_indexer.Database.Insert.{into_blocks, into_block_parent}
use simply_kaspa_indexer.Checkpoint.{CheckpointBlock, CheckpointOrigin}
use simply_kaspa_indexer.Mapping.Rpc.{RpcBlock}
use simply_kaspa_indexer.Mapping.Mapper.{new}
use simply_kaspa_indexer.Processing.{Event, sent, reported}
use simply_kaspa_indexer.Processing.Samples.{args}
use simply_kaspa_indexer.Processing.Order.{Ordered}
use simply_kaspa_indexer.Processing.Blocks.{
  Setup, State, Round, init, process_blocks, step, disable_blocks, disable_block_relations,
  checkpoint_of, block_rows, parent_rows,
}
use simply_kaspa_indexer.Processing.Blocks.Order.{Arrived, BlockSent, process_blocks-Ordered}
use simply_kaspa_indexer.Processing.Blocks.Commit.{
  report, inserted_blocks, inserted_parents, enabled_rows, brought,
}
use simply_kaspa_indexer.Processing.Blocks.Flow.{process_blocks-flow}

abbrev pub block_at : ℕ → RpcBlock
block_at n = record {
  header = record {
    hash = n ∷ [];
    version = 1;
    parents_by_level = ((1 ∷ []) ∷ (2 ∷ []) ∷ []) ∷ [];
    hash_merkle_root = 3 ∷ [];
    accepted_id_merkle_root = 4 ∷ [];
    utxo_commitment = 5 ∷ [];
    timestamp = 1000;
    bits = 7;
    nonce = 8;
    daa_score = n;
    blue_work_bytes = 10 ∷ [];
    blue_score = n;
    pruning_point = 12 ∷ [];
  };
  transactions = [];
  verbose_data = some (record {
    hash = n ∷ [];
    transaction_ids = [];
    merge_set_blues_hashes = [];
    merge_set_reds_hashes = [];
    selected_parent_hash = 2 ∷ [];
  });
}

abbrev pub setup : Setup
setup = record { args = args; mapper = new args; scaled = λ n. n / 10; datable = λ t. true }

abbrev round : ℕ → RpcBlock → Round
round s block = record {
  block = block;
  check_time = s * 1_000_000_000;
  commit_time = s * 1_000_000_000;
  accepts = λ i. true;
}

abbrev pub rounds : List Round
rounds = round 1 (block_at 20) ∷ round 4 (block_at 21) ∷ []

abbrev row : ℕ → Block
row n = record {
  hash = n ∷ [];
  accepted_id_merkle_root = some (4 ∷ []);
  transaction_ids = none;
  merge_set_blues_hashes = none;
  merge_set_reds_hashes = none;
  selected_parent_hash = some (2 ∷ []);
  bits = some (pos 7);
  blue_score = some (pos n);
  blue_work = some (10 ∷ []);
  daa_score = some (pos n);
  hash_merkle_root = some (3 ∷ []);
  nonce = some (0 ∷ 0 ∷ 0 ∷ 0 ∷ 0 ∷ 0 ∷ 0 ∷ 8 ∷ []);
  pruning_point = some (12 ∷ []);
  timestamp = some (pos 1000);
  utxo_commitment = some (5 ∷ []);
  version = some (pos 1);
}

abbrev parent : ℕ → ℕ → BlockParent
parent n m = record { block_hash = n ∷ []; parent_hash = m ∷ [] }

abbrev pub reported_at : ℕ → CheckpointBlock
reported_at n = record {
  origin = CheckpointOrigin.blocks;
  hash = n ∷ [];
  timestamp = 1000;
  daa_score = n;
  blue_score = n;
}

abbrev pub all_events : List Event
all_events =
    sent (into_blocks (row 20 ∷ row 21 ∷ []))
    ∷ sent (into_block_parent (parent 20 1 ∷ parent 20 2 ∷ parent 21 1 ∷ parent 21 2 ∷ []))
    ∷ reported (reported_at 20)
    ∷ reported (reported_at 21)
    ∷ []

abbrev pub final : State
final = record {
  blocks = [];
  blocks_parents = [];
  checkpoint_blocks = [];
  last_commit_time = 4 * 1_000_000_000;
  last_block = some (record { hash = 21 ∷ []; timestamp = 1000; daa_score = 21; blue_score = 21 });
}

pub run_rounds : process_blocks setup rounds (init 0) ≡ some (final, all_events)
unfolding process_blocks step is_disabled init new signed
run_rounds = refl

process_blocks-Ordered_example : Ordered (BlockSent setup (Arrived rounds)) [] all_events
process_blocks-Ordered_example = process_blocks-Ordered setup rounds 0 run_rounds

process_blocks-flow_example :
    (gather report all_events ++ [] ≡ gather (λ r. checkpoint_of r.block ∷ []) rounds)
    × (gather inserted_blocks all_events ++ enabled_rows (disable_blocks setup) []
        ≡ gather (λ r. brought (block_rows setup r.block)) rounds)
    × (gather inserted_parents all_events ++ enabled_rows (disable_block_relations setup) []
        ≡ gather (λ r. parent_rows setup r.block) rounds)
process_blocks-flow_example = process_blocks-flow setup rounds 0 run_rounds
