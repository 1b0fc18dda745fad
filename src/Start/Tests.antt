-- ===== src/Start/Tests.antt =====
-- A start behind the run of Processing.Saved.Tests and VirtualChain.Responses.Tests, which wrote one checkpoint
-- each; a hash is written as its bytes.
use simply_kaspa_indexer.Prelude.{false, none, ℕ, ◌≡◌, refl, sym, true, some, List, [], ◌∷◌, Bytes}
use simply_kaspa_indexer.Mapping.Rpc.{RpcHeader}
use simply_kaspa_indexer.Processing.Samples.{args}
use simply_kaspa_indexer.Processing.Blocks.Tests as OfBlocks
use simply_kaspa_indexer.Processing.Saved.Tests as OfSaved
use simply_kaspa_indexer.VirtualChain.Accept.Tests as OfAccept
use simply_kaspa_indexer.VirtualChain.Responses.Tests as OfChain
use simply_kaspa_indexer.Cli.{is_disabled}
use simply_kaspa_indexer.Checkpoint.{CheckpointOrigin}
use simply_kaspa_indexer.Metrics.{Metrics, System, new_metrics, new_component}
use simply_kaspa_indexer.Metrics.Writes.{Write, blocks_inserted, block_checkpoint_saved, apply_all}
use simply_kaspa_indexer.Processing.{MetricsBlock, update_last_block}
use simply_kaspa_indexer.Health.{get_health, down, answered}
use simply_kaspa_indexer.Start.Fresh.{unfetched-get_health}
use simply_kaspa_indexer.Start.{
  initial_block, tasks, settings_of, first_metrics, World, BlockDagInfo, Started, start_processing,
}
use simply_kaspa_indexer.Start.Resume.{
  of_blocks, of_chain, Run, vars_after, IsBlockRestart, IsVcpRestart, start_processing-IsRestart,
}

abbrev earlier : Run
earlier = record {
  history = OfSaved.history;
  checkpoint_setup = OfSaved.setup;
  checkpoint_rounds = OfSaved.messages;
  checkpoint_start = 0;
  checkpoint_state = OfSaved.final;
  taken = OfSaved.messages_taken;
  checkpoint_run = OfSaved.run-messages;
  chain_setup = OfChain.setup;
  chain_recalls = OfAccept.recalls;
  chain_rounds = OfChain.rounds;
  chain_done = OfChain.actions;
  chain_later = [];
  chain_run = OfChain.actions_of_rounds;
  writes = of_chain OfChain.checkpoint ∷ of_blocks (OfBlocks.reported_at 21) ∷ [];
  block_writes = refl;
  vcp_writes = sym OfChain.saved_by_actions;
}

abbrev header_of : Bytes → RpcHeader
header_of hash = record (OfBlocks.block_at 1).header { hash = hash }

abbrev world : World
world = record {
  from_str = λ text. some text;
  get_block = λ hash. some (header_of hash);
  vars = vars_after (λ hash. hash) earlier.writes [];
  answers = (true, true);
}

abbrev info : BlockDagInfo
info = record { pruning_point_hash = 1 ∷ []; virtual_parent_hashes = [] }

start_processing-IsRestart_example :
    (st : Started) × (start_processing args world info ≡ some st)
    × ((st.block_checkpoint ≡ 21 ∷ []) × IsBlockRestart earlier (OfBlocks.reported_at 21))
    × ((st.vcp_checkpoint ≡ 30 ∷ []) × IsVcpRestart earlier OfChain.checkpoint)
start_processing-IsRestart_example =
    start_processing-IsRestart earlier (λ hash. hash) [] args world info refl
      OfChain.saved_by_actions refl refl refl refl refl refl refl

-- A first start, at block 20.
abbrev begun : Started
begun = record {
  block_checkpoint = 20 ∷ [];
  vcp_checkpoint = 20 ∷ [];
  block_checkpoint_block = initial_block (header_of (20 ∷ []));
  vcp_checkpoint_block = initial_block (header_of (20 ∷ []));
  running = tasks args;
}

abbrev first_shown : Metrics
first_shown = record new_metrics {
  settings = some (settings_of args begun);
  queues = record {
    blocks = 0;
    blocks_capacity = 1000;
    transactions = 0;
    transactions_capacity = 1000;
  };
  block_checkpoint = record {
    origin = some CheckpointOrigin.initial;
    block = some (record { hash = 20 ∷ []; timestamp = 1000; daa_score = 1; blue_score = 1 });
  };
  vcp_checkpoint = record {
    origin = some CheckpointOrigin.initial;
    block = some (record { hash = 20 ∷ []; timestamp = 1000; daa_score = 1; blue_score = 1 });
  };
  components = record new_component {
    transaction_processor = record { enabled = true; last_block = none };
    virtual_chain_processor = record {
      enabled = true;
      only_blocks = false;
      tip_distance = none;
      last_block = none;
    };
  };
}

show_first : first_metrics (λ t. true) 1000 args begun ≡ some first_shown
unfolding first_metrics is_disabled
show_first = refl

abbrev block_21 : MetricsBlock
block_21 = record { hash = 21 ∷ []; timestamp = 1000; daa_score = 2; blue_score = 2 }

abbrev system : System
system = record { cgroup = none; available_memory = 600_000_000; free_memory = 0; own = none }

-- The block processor has inserted block 21, and its checkpoint is saved.
abbrev later : List Write
later = blocks_inserted block_21 ∷ block_checkpoint_saved CheckpointOrigin.blocks block_21 ∷ []

abbrev later_shown : Metrics
later_shown = record first_shown {
  block_checkpoint = record { origin = some CheckpointOrigin.blocks; block = some block_21 };
  components = record first_shown.components {
    block_processor = record { last_block = some block_21 };
  };
}

write_later : apply_all later first_shown ≡ some later_shown
unfolding apply_all update_last_block
write_later = refl

ask_health :
    get_health (λ a b. 0) system none none later_shown (answered true 1) (λ i. 1000)
    ≡ some (down, 503)
unfolding get_health
ask_health = refl

unfetched-get_health_example : ◌≡◌ {A = ℕ} 503 503
unfetched-get_health_example =
    unfetched-get_health (λ t. true) 1000 args begun later (λ a b. 0) system none none
      (answered true 1) (λ i. 1000) show_first (refl, (refl, tt)) write_later ask_health
