-- ===== src/Start.antt =====
-- indexer/src/main.rs: where the program starts, and which tasks it runs. A hash in the options or in the
-- database is a text, which `KaspaHash::from_str` reads; `none` of it is an error.
pub mod Resume
pub mod Fresh
mod Tests
use simply_kaspa_indexer.Prelude.{
  ℤ, ◌*◌, ℕ, Bool, true, false, not, Option, none, some, List, [], ◌∷◌, ◌++◌, Bytes, if◌then◌else◌,
  ◌>>=◌,
}
use simply_kaspa_indexer.Models.{bytes_eq}
use simply_kaspa_indexer.Cli.{CliArgs, CliDisable, is_disabled}
use simply_kaspa_indexer.Checkpoint.{CheckpointBlock, CheckpointOrigin}
use simply_kaspa_indexer.Mapping.Rpc.{RpcHeader}
use simply_kaspa_indexer.Processing.{metrics_block}
use simply_kaspa_indexer.Metrics.{
  Settings, Metrics, new_metrics, new_queues, new_component, new_transaction_processor,
  new_virtual_chain_processor,
}
use simply_kaspa_indexer.Database.Vars.{Vars, load_block_checkpoint, load_vcp_checkpoint}

-- What is read of the node's answer.
pub record BlockDagInfo : Type 0 where
  pub pruning_point_hash : Bytes
  pub virtual_parent_hashes : List Bytes

abbrev pub first : List Bytes → Option Bytes
first [] = none
first (h ∷ hs) = some h

-- The block from which blocks are fetched; `none` is a panic of `expect`.
unfoldable pub choose_block_checkpoint :
    (Bytes → Option Bytes) → BlockDagInfo → Option Bytes → Option Bytes → Option Bytes
choose_block_checkpoint from_str info (some ignore_checkpoint) saved =
    if bytes_eq ignore_checkpoint (b'p' ∷ [])
    then some info.pruning_point_hash
    else if bytes_eq ignore_checkpoint (b'v' ∷ [])
    then first info.virtual_parent_hashes
    else from_str ignore_checkpoint
choose_block_checkpoint from_str info none (some saved) = from_str saved
choose_block_checkpoint from_str info none none = some info.pruning_point_hash

-- The block from which the virtual chain is followed.
unfoldable pub choose_vcp_checkpoint :
    (Bytes → Option Bytes) → Bytes → Option Bytes → Option Bytes → Option Bytes
choose_vcp_checkpoint from_str block_checkpoint (some ignore_checkpoint) saved =
    some block_checkpoint
choose_vcp_checkpoint from_str block_checkpoint none (some saved) = from_str saved
choose_vcp_checkpoint from_str block_checkpoint none none = some block_checkpoint

abbrev pub initial_block : RpcHeader → CheckpointBlock
initial_block header = record {
  origin = CheckpointOrigin.initial;
  hash = header.hash;
  timestamp = header.timestamp;
  daa_score = header.daa_score;
  blue_score = header.blue_score;
}

-- `get_block` is the node's answer; an error is a panic.
unfoldable pub fetch_checkpoint_block : (Bytes → Option RpcHeader) → Bytes → Option CheckpointBlock
fetch_checkpoint_block get_block hash = do header ← get_block hash; some (initial_block header)

pub data Task : Type 0 where
  web_server block_fetcher process_blocks process_checkpoints process_transactions : Task
  fetch_virtual_chain process_virtual_chain pruner : Task

unfoldable pub tasks : CliArgs → List Task
unfolding is_disabled
tasks args =
    (web_server ∷ block_fetcher ∷ process_blocks ∷ process_checkpoints ∷ [])
    ++ ((if not (is_disabled args CliDisable.transaction_processing)
          then process_transactions ∷ []
          else [])
        ++ ((if not (is_disabled args CliDisable.virtual_chain_processing)
              then fetch_virtual_chain ∷ process_virtual_chain ∷ []
              else [])
            ++ pruner ∷ []))

-- What the rest of the program starts with. The blocks are what the metrics show first.
pub record Started : Type 0 where
  pub block_checkpoint : Bytes
  pub vcp_checkpoint : Bytes
  pub block_checkpoint_block : CheckpointBlock
  pub vcp_checkpoint_block : CheckpointBlock
  pub running : List Task

-- What the program finds outside: `answers` says whether the database answers the two questions.
pub record World : Type 0 where
  pub from_str : Bytes → Option Bytes
  pub get_block : Bytes → Option RpcHeader
  pub vars : Vars
  pub answers : Bool × Bool

unfoldable pub start_processing : CliArgs → World → BlockDagInfo → Option Started
unfolding choose_block_checkpoint choose_vcp_checkpoint fetch_checkpoint_block tasks
    load_block_checkpoint load_vcp_checkpoint
start_processing args w info = do
  block_checkpoint ←
      choose_block_checkpoint w.from_str info args.ignore_checkpoint
        (load_block_checkpoint w.answers.0 w.vars)
  vcp_checkpoint ←
      choose_vcp_checkpoint w.from_str block_checkpoint args.ignore_checkpoint
        (load_vcp_checkpoint w.answers.1 w.vars)
  block_checkpoint_block ← fetch_checkpoint_block w.get_block block_checkpoint
  vcp_checkpoint_block ← fetch_checkpoint_block w.get_block vcp_checkpoint
  some (record {
    block_checkpoint = block_checkpoint;
    vcp_checkpoint = vcp_checkpoint;
    block_checkpoint_block = block_checkpoint_block;
    vcp_checkpoint_block = vcp_checkpoint_block;
    running = tasks args;
  })

-- One try to reach the node, and whether the program is told to stop before it.
pub record Attempt : Type 0 where
  pub shutdown : Bool
  pub block_dag_info : Option BlockDagInfo

-- The loop in front of it: the first answer before a shutdown, if there is one.
unfoldable pub reach_node : List Attempt → Option BlockDagInfo
reach_node [] = none
reach_node (a ∷ attempts) =
    let later = reach_node attempts in
    if a.shutdown then none else elim a.block_dag_info [ none ↦ later | some info ↦ some info ]

-- `net_bps`, whatever the network is.
abbrev pub assumed_bps : ℕ
assumed_bps = 10

-- The settings and the first metrics. `queue_capacity` is `(batch_scale * 1000) as usize`. A time that
-- chrono does not take is a panic.
abbrev pub settings_of : CliArgs → Started → Settings
settings_of args st = record {
  cli_args = args;
  net_bps = assumed_bps;
  net_tps_max = assumed_bps * 300;
  block_checkpoint = st.block_checkpoint;
  vcp_checkpoint = st.vcp_checkpoint;
}

unfoldable pub first_metrics : (ℤ → Bool) → ℕ → CliArgs → Started → Option Metrics
unfolding metrics_block is_disabled
first_metrics datable queue_capacity args st = do
  block ← metrics_block datable st.block_checkpoint_block
  vcp_block ← metrics_block datable st.vcp_checkpoint_block
  some (record new_metrics {
    settings = some (settings_of args st);
    queues = record new_queues {
      blocks_capacity = queue_capacity;
      transactions_capacity = queue_capacity;
    };
    block_checkpoint = record {
      origin = some st.block_checkpoint_block.origin;
      block = some block;
    };
    vcp_checkpoint = record {
      origin = some st.vcp_checkpoint_block.origin;
      block = some vcp_block;
    };
    components = record new_component {
      transaction_processor = record new_transaction_processor {
        enabled = not (is_disabled args CliDisable.transaction_processing);
      };
      virtual_chain_processor = record new_virtual_chain_processor {
        enabled = not (is_disabled args CliDisable.virtual_chain_processing);
        only_blocks = is_disabled args CliDisable.transaction_acceptance;
      };
    };
  })
