-- ===== src/Processing/Samples.antt =====
-- The options of an indexer that leaves nothing out.
use simply_kaspa_indexer.Prelude.{none}
use simply_kaspa_indexer.Cli.{CliArgs}

abbrev pub args : CliArgs
args = record {
  cache_ttl = 60;
  block_interval = 600;
  vcp_interval = 600;
  vcp_window = 600;
  ignore_checkpoint = none;
  pruning = record {
    prune_db = none;
    prune_batch_size = 1000;
    retention = none;
    retention_block_parent = none;
    retention_blocks = none;
    retention_transactions = none;
    retention_transactions_acceptances = none;
    retention_addresses_transactions = none;
  };
  disable = none;
  exclude_fields = none;
  ignore_self_sends = none;
}
