-- ===== src/Health/Tests.antt =====
-- A block processor that is eleven minutes behind, and a node that answers.
use simply_kaspa_indexer.Prelude.{refl, [], ℕ, ◌≡◌, ◌⊎◌, ◌↔◌, true, false, none, some, []}
use simply_kaspa_indexer.Processing.{MetricsBlock}
use simply_kaspa_indexer.Metrics.{System, Metrics, new_metrics, new_component}
use simply_kaspa_indexer.Health.{down, answered, get_health, is_down, kaspad_status}
use simply_kaspa_indexer.Health.Down.{SomeLags, get_health-SomeLags}

abbrev block_at : ℕ → MetricsBlock
block_at n = record { hash = []; timestamp = 0; daa_score = n; blue_score = n }

abbrev metrics : Metrics
metrics = record new_metrics {
  queues = record {
    blocks = 0;
    blocks_capacity = 1000;
    transactions = 0;
    transactions_capacity = 1000;
  };
  block_checkpoint = record { origin = none; block = some (block_at 10000) };
  vcp_checkpoint = record { origin = none; block = some (block_at 10000) };
  components = record new_component {
    block_fetcher = record { last_block = some (block_at 10000) };
    block_processor = record { last_block = some (block_at 3400) };
    virtual_chain_processor = record {
      enabled = true;
      only_blocks = false;
      tip_distance = none;
      last_block = some (block_at 10000);
    };
  };
}

abbrev system : System
system = record {
  cgroup = some (2_000_000_000, 500_000_000);
  available_memory = 0;
  free_memory = 0;
  own = some (400_000_000, 60);
}

run_health :
    get_health (λ a b. 0) system none none metrics (answered true 10000) (λ i. 0) ≡ some (down, 503)
unfolding get_health
run_health = refl

get_health-SomeLags_example : (◌≡◌ {A = ℕ} 503 503) ↔ (
    (is_down (kaspad_status (answered true 10000)) ≡ true) ⊎ SomeLags metrics (some 10000) (λ i. 0))
get_health-SomeLags_example =
    get_health-SomeLags (λ a b. 0) system none none metrics (answered true 10000) (λ i. 0)
      run_health
