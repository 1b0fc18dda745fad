-- ===== src/Metrics/Writes.antt =====
-- What the tasks write to the metrics that they share, each under the lock: a write is one of its holders'
-- turns. The fetcher's stands in indexer/src/blocks/fetch_blocks.rs, those of the processors in
-- process_blocks.rs, process_transactions.rs and process_virtual_chain.rs, those of the checkpoints in
-- checkpoint.rs and process_virtual_chain.rs, and that of a request in web/endpoint/metrics.rs.
use simply_kaspa_indexer.Prelude.{ℕ, Bool, true, false, Option, some, List, [], ◌∷◌, ◌>>=◌}
use simply_kaspa_indexer.Checkpoint.{CheckpointOrigin}
use simply_kaspa_indexer.Processing.{MetricsBlock, update_last_block}
use simply_kaspa_indexer.Prune.{DbPruner}
use simply_kaspa_indexer.Metrics.Tables.{DatabaseDetails, TableDetails}
use simply_kaspa_indexer.Metrics.{Metrics, System, update_metrics}

-- `pruned` is any write of the pruner, which touches its own part only.
pub data Write : Type 0 where
  fetched : (blocks transactions : ℕ) → MetricsBlock → Write
  blocks_inserted transactions_inserted : MetricsBlock → Write
  chain_followed : (tip_distance : ℕ) → MetricsBlock → Write
  block_checkpoint_saved vcp_checkpoint_saved : CheckpointOrigin → MetricsBlock → Write
  pruned : DbPruner → Write
  requested : System → Option DatabaseDetails → Option (List TableDetails) → Write

abbrev pub show_fetched : ℕ → ℕ → MetricsBlock → Metrics → Metrics
show_fetched blocks transactions b m = record m {
  queues = record m.queues { blocks = blocks; transactions = transactions };
  components = record m.components {
    block_fetcher = record {
      last_block = update_last_block b m.components.block_fetcher.last_block;
    };
  };
}

abbrev pub show_blocks : MetricsBlock → Metrics → Metrics
show_blocks b m = record m {
  components = record m.components {
    block_processor = record {
      last_block = update_last_block b m.components.block_processor.last_block;
    };
  };
}

abbrev pub show_transactions : MetricsBlock → Metrics → Metrics
show_transactions b m = record m {
  components = record m.components {
    transaction_processor = record m.components.transaction_processor {
      last_block = update_last_block b m.components.transaction_processor.last_block;
    };
  };
}

abbrev pub show_chain : ℕ → MetricsBlock → Metrics → Metrics
show_chain tip_distance b m = record m {
  components = record m.components {
    virtual_chain_processor = record m.components.virtual_chain_processor {
      tip_distance = some tip_distance;
      last_block = update_last_block b m.components.virtual_chain_processor.last_block;
    };
  };
}

abbrev pub show_block_checkpoint : CheckpointOrigin → MetricsBlock → Metrics → Metrics
show_block_checkpoint origin b m = record m {
  block_checkpoint = record { origin = some origin; block = some b };
}

abbrev pub show_vcp_checkpoint : CheckpointOrigin → MetricsBlock → Metrics → Metrics
show_vcp_checkpoint origin b m = record m {
  vcp_checkpoint = record { origin = some origin; block = some b };
}

unfoldable pub apply : Write → Metrics → Option Metrics
unfolding update_metrics
apply (fetched blocks transactions b) m = some (show_fetched blocks transactions b m)
apply (blocks_inserted b) m = some (show_blocks b m)
apply (transactions_inserted b) m = some (show_transactions b m)
apply (chain_followed tip_distance b) m = some (show_chain tip_distance b m)
apply (block_checkpoint_saved origin b) m = some (show_block_checkpoint origin b m)
apply (vcp_checkpoint_saved origin b) m = some (show_vcp_checkpoint origin b m)
apply (pruned db_pruner) m =
    some (record m { components = record m.components { db_pruner = db_pruner } })
apply (requested system details tables) m = update_metrics system details tables m

-- The writes in the order in which the tasks come to hold the lock.
unfoldable pub apply_all : List Write → Metrics → Option Metrics
unfolding apply
apply_all [] m = some m
apply_all (w ∷ ws) m = apply w m >>= apply_all ws

abbrev pub is_fetched : Write → Bool
is_fetched (fetched blocks transactions b) = true
is_fetched _ = false
