-- ===== src/Metrics.antt =====
-- indexer/src/web/model/metrics.rs, indexer/src/settings.rs and `update_metrics` of
-- indexer/src/web/endpoint/metrics.rs. Texts for a reader are left out, with the share of the processor that
-- is used, and the times of the pruner and of the tip distance.
pub mod Tables
pub mod Writes
use simply_kaspa_indexer.Prelude.{
  ℕ, ◌-◌, ◌+◌, ◌*◌, ◌%◌, ◌^◌, ◌==◌, Bool, true, false, Option, none, some, List, [], ◌∷◌, map,
  Bytes, ℤ, leb, if◌then◌else◌, ◌>>=◌,
}
use simply_kaspa_indexer.Cli.{CliArgs}
use simply_kaspa_indexer.Checkpoint.{CheckpointOrigin}
use simply_kaspa_indexer.Processing.{MetricsBlock}
use simply_kaspa_indexer.Prune.{DbPruner}
use simply_kaspa_indexer.Metrics.Tables.{
  MetricsDbTable, DatabaseDetails, TableDetails, as_u64, db_table,
}

pub record Settings : Type 0 where
  pub cli_args : CliArgs
  pub net_bps : ℕ
  pub net_tps_max : ℕ
  pub block_checkpoint : Bytes
  pub vcp_checkpoint : Bytes

pub record MetricsProcess : Type 0 where
  pub memory_used : ℕ
  pub memory_free : ℕ
  pub uptime : ℕ

pub record MetricsQueues : Type 0 where
  pub blocks : ℕ
  pub blocks_capacity : ℕ
  pub transactions : ℕ
  pub transactions_capacity : ℕ

pub record MetricsCheckpoint : Type 0 where
  pub origin : Option CheckpointOrigin
  pub block : Option MetricsBlock

pub record MetricsComponentBlockFetcher : Type 0 where
  pub last_block : Option MetricsBlock

pub record MetricsComponentBlockProcessor : Type 0 where
  pub last_block : Option MetricsBlock

pub record MetricsComponentTransactionProcessor : Type 0 where
  pub enabled : Bool
  pub last_block : Option MetricsBlock

pub record MetricsComponentVirtualChainProcessor : Type 0 where
  pub enabled : Bool
  pub only_blocks : Bool
  pub tip_distance : Option ℕ
  pub last_block : Option MetricsBlock

pub record MetricsComponent : Type 0 where
  pub block_fetcher : MetricsComponentBlockFetcher
  pub block_processor : MetricsComponentBlockProcessor
  pub transaction_processor : MetricsComponentTransactionProcessor
  pub virtual_chain_processor : MetricsComponentVirtualChainProcessor
  pub db_pruner : DbPruner

pub record MetricsDb : Type 0 where
  pub database_name : Option Bytes
  pub schema_name : Option Bytes
  pub database_size : Option ℕ
  pub active_queries : Option ℕ
  pub blocked_queries : Option ℕ
  pub active_connections : Option ℕ
  pub max_connections : Option ℕ
  pub deadlocks : Option ℕ
  pub tables : Option (List MetricsDbTable)

pub record Metrics : Type 0 where
  pub settings : Option Settings
  pub process : MetricsProcess
  pub queues : MetricsQueues
  pub block_checkpoint : MetricsCheckpoint
  pub vcp_checkpoint : MetricsCheckpoint
  pub components : MetricsComponent
  pub database : MetricsDb

-- The `new` of each.
abbrev pub new_process : MetricsProcess
new_process = record { memory_used = 0; memory_free = 0; uptime = 0 }

abbrev pub new_queues : MetricsQueues
new_queues = record { blocks = 0; blocks_capacity = 0; transactions = 0; transactions_capacity = 0 }

abbrev pub new_checkpoint : MetricsCheckpoint
new_checkpoint = record { origin = none; block = none }

abbrev pub new_block_fetcher : MetricsComponentBlockFetcher
new_block_fetcher = record { last_block = none }

abbrev pub new_block_processor : MetricsComponentBlockProcessor
new_block_processor = record { last_block = none }

abbrev pub new_transaction_processor : MetricsComponentTransactionProcessor
new_transaction_processor = record { enabled = false; last_block = none }

abbrev pub new_virtual_chain_processor : MetricsComponentVirtualChainProcessor
new_virtual_chain_processor = record {
  enabled = false;
  only_blocks = false;
  tip_distance = none;
  last_block = none;
}

abbrev pub new_db_pruner : DbPruner
new_db_pruner = record {
  enabled = false;
  running = none;
  results = [];
  completed_successfully = none;
}

abbrev pub new_component : MetricsComponent
new_component = record {
  block_fetcher = new_block_fetcher;
  block_processor = new_block_processor;
  transaction_processor = new_transaction_processor;
  virtual_chain_processor = new_virtual_chain_processor;
  db_pruner = new_db_pruner;
}

abbrev pub new_db : MetricsDb
new_db = record {
  database_name = none;
  schema_name = none;
  database_size = none;
  active_queries = none;
  blocked_queries = none;
  active_connections = none;
  max_connections = none;
  deadlocks = none;
  tables = none;
}

abbrev pub new_metrics : Metrics
new_metrics = record {
  settings = none;
  process = new_process;
  queues = new_queues;
  block_checkpoint = new_checkpoint;
  vcp_checkpoint = new_checkpoint;
  components = new_component;
  database = new_db;
}

-- `From<DatabaseDetails> for MetricsDb`.
unfoldable pub db_of : DatabaseDetails → MetricsDb
unfolding as_u64
db_of d = record {
  database_name = some d.database_name;
  schema_name = some d.schema_name;
  database_size = some (as_u64 d.database_size);
  active_queries = some (as_u64 d.active_queries);
  blocked_queries = some (as_u64 d.blocked_queries);
  active_connections = some (as_u64 d.active_connections);
  max_connections = some (as_u64 d.max_connections);
  deadlocks = some (as_u64 d.deadlocks);
  tables = none;
}

-- What the system says: the limit and the use of memory of the control group, if both can be read, and what the
-- machine has available and free.
pub record System : Type 0 where
  pub cgroup : Option (ℕ × ℕ)
  pub available_memory : ℕ
  pub free_memory : ℕ
  pub own : Option (ℕ × ℕ)

-- `max - current` on u64 is a panic where more is used than the limit.
unfoldable pub get_free_memory : System → Option ℕ
get_free_memory system = elim system.cgroup [
  | some (limit, current) ↦ if leb current limit then some (limit - current) else none
  | none ↦
      some (if system.available_memory == 0 then system.free_memory else system.available_memory)
]

-- `own` are the memory that the process uses and the seconds that it runs.
unfoldable pub update_process : System → MetricsProcess → Option MetricsProcess
unfolding get_free_memory
update_process system process = elim system.own [
  | none ↦ some process
  | some (memory, uptime_seconds) ↦ (do
    free ← get_free_memory system
    some (record { memory_used = memory; memory_free = free; uptime = uptime_seconds * 1000 }))
]

-- The database's two answers, none at an error.
unfoldable pub update_db :
    Option DatabaseDetails → Option (List TableDetails) → MetricsDb → MetricsDb
unfolding db_of db_table
update_db details tables database =
    let database' : MetricsDb = elim details [ none ↦ database | some d ↦ db_of d ] in
    elim tables [
      | none ↦ database'
      | some ts ↦ record database' { tables = some (map db_table ts) }
    ]

unfoldable pub update_metrics :
    System → Option DatabaseDetails → Option (List TableDetails) → Metrics → Option Metrics
unfolding update_process update_db
update_metrics system details tables m = do
  process ← update_process system m.process
  some (record m { process = process; database = update_db details tables m.database })
