-- ===== src/Prune/Tests.antt =====
-- A run over two blocks, of which one is old, with its row of parents.
use simply_kaspa_indexer.Prelude.{
  signed, add_u64, ◌≡◌, true, All, Option, Bool, ℕ, zero, suc, ◌/◌, refl, false, none, some, [],
  ◌∷◌, ℤ, pos, negsuc, arith,
}
use simply_kaspa_indexer.Cli.{CliArgs, PruningConfig}
use simply_kaspa_indexer.Models.{bytes_eq, Block, BlockParent}
use simply_kaspa_indexer.Database.Delete.{
  prune_block_parent, prune_blocks, count, DeleteWhere, joins_old_block, Tables, sql_lt,
}
use simply_kaspa_indexer.Database.Client
use simply_kaspa_indexer.Database.Client.{Server}
use simply_kaspa_indexer.Database.Retry.{deadlock_code, is_deadlock}
use simply_kaspa_indexer.Database.Delete.Loop.{IsDelete}
use simply_kaspa_indexer.Database.Delete.First.{without_first, delete_first, delete_first-IsDelete}
use simply_kaspa_indexer.Prune.{Flow, goes_on, returned, panicked, Setup, DbPruner, prune}
use simply_kaspa_indexer.Prune.Parts.{kept, Holds}
use simply_kaspa_indexer.Prune.Steps.{cut, Fits, Room}
use simply_kaspa_indexer.Prune.Integrity.{IsDangling, prune_no-IsDangling}

-- Blocks and parents are kept for 100 s.
abbrev config : PruningConfig
config = record {
  prune_db = none;
  prune_batch_size = 2;
  retention = none;
  retention_block_parent = some 100000000000;
  retention_blocks = some 100000000000;
  retention_transactions = none;
  retention_transactions_acceptances = none;
  retention_addresses_transactions = none;
}

abbrev options : CliArgs
options = record {
  cache_ttl = 60;
  block_interval = 600;
  vcp_interval = 600;
  vcp_window = 600;
  ignore_checkpoint = none;
  pruning = config;
  disable = none;
  exclude_fields = none;
  ignore_self_sends = none;
}

abbrev millis : ℕ → ℤ
millis d = negsuc (d / 1000000)

-- The first attempt at each step ends in a deadlock.
abbrev deletes_at : ℕ → DeleteWhere
deletes_at zero = delete_first
deletes_at (suc zero) = λ R p limit rows. none
deletes_at (suc (suc i)) = delete_first

abbrev server : Server
server = record { delete_where = deletes_at; error_code = λ i t. some deadlock_code }

no_answer : IsDelete (deletes_at 1)
no_answer = record { deleted = λ R p limit rows rows' n e. ground (arith, e) }

deletes_at-IsDelete : (i : ℕ) → IsDelete (deletes_at i)
deletes_at-IsDelete zero = delete_first-IsDelete
deletes_at-IsDelete (suc zero) = no_answer
deletes_at-IsDelete (suc (suc i)) = delete_first-IsDelete

abbrev setup : Setup
setup = record {
  cli_args = options;
  config = config;
  net_bps = 10;
  checkpoint_blue_score = some 5000;
  millis_before = λ d. some (millis d);
  shutdown = λ _. false;
  server = server;
  fuel = 3;
}

abbrev block_at : ℕ → ℕ → Block
block_at h blue_score = record {
  hash = h ∷ [];
  accepted_id_merkle_root = none;
  transaction_ids = none;
  merge_set_blues_hashes = none;
  merge_set_reds_hashes = none;
  selected_parent_hash = none;
  bits = none;
  blue_score = some (pos blue_score);
  blue_work = none;
  daa_score = none;
  hash_merkle_root = none;
  nonce = none;
  pruning_point = none;
  timestamp = none;
  utxo_commitment = none;
  version = none;
}

abbrev parent_of : ℕ → ℕ → BlockParent
parent_of h p = record { block_hash = h ∷ []; parent_hash = p ∷ [] }

abbrev tables : Tables
tables = record {
  blocks = block_at 1 10 ∷ block_at 2 4500 ∷ [];
  block_parent = parent_of 1 0 ∷ parent_of 2 1 ∷ [];
  transactions = [];
  transactions_acceptances = [];
  addresses_transactions = [];
  scripts_transactions = [];
}

abbrev idle : DbPruner
idle = record { enabled = true; running = none; results = []; completed_successfully = none }

setup-Fits : Fits setup millis 1000000000000
setup-Fits = record {
  sound = deletes_at-IsDelete;
  positive = omega arith;
  behind = λ d h. omega arith;
  millis = λ d h. refl;
  block_parent = omega arith;
  blocks = omega arith;
  transactions = tt;
  acceptances = tt;
  addresses = tt;
}

tables-Room : Room setup tables
tables-Room = record {
  blocks = omega arith;
  block_parent = omega arith;
  transactions = omega arith;
  acceptances = omega arith;
  addresses = omega arith;
  scripts = omega arith;
}

prune_no-IsDangling_example :
    Holds
      (λ _. ⊥)
      (λ s.
        s.db_pruner.running ≡ some false
        → s.db_pruner.completed_successfully ≡ some true
        → (s.tables.blocks
            ≡ kept (λ x. sql_lt x.blue_score (cut setup 5000 millis 100000000000)) tables.blocks)
          × All
              (λ row. ¬ IsDangling setup 5000 millis 100000000000 tables row)
              s.tables.block_parent)
      (prune setup idle tables)
prune_no-IsDangling_example =
    prune_no-IsDangling setup 5000 millis 1000000000000 idle tables 100000000000 100000000000
      (omega arith) setup-Fits tables-Room refl refl refl refl

abbrev outcome : Flow → Option (Option Bool × Tables)
outcome (goes_on s) = none
outcome (returned s) = some (s.db_pruner.completed_successfully, s.tables)
outcome panicked = none

-- After a deadlock in each step, the run deletes block 1 and its row, and ends as successful.
run_from_idle :
    outcome (prune setup idle tables)
    ≡ some (
      some true,
      record tables { blocks = block_at 2 4500 ∷ []; block_parent = parent_of 2 1 ∷ [] },
    )
unfolding prune prune_block_parent count joins_old_block bytes_eq signed add_u64 without_first
    prune_blocks Client.prune_block_parent Client.prune_blocks is_deadlock
run_from_idle = refl
