-- ===== src/Processing/Saved/Tests.antt =====
-- Two processors that commit two blocks each, with their events mixed, and a checkpoint processor that
-- writes the second block.
use simply_kaspa_indexer.Prelude.{
  Any, ℕ, ◌*◌, ◌≡◌, refl, true, false, none, some, List, [], ◌∷◌, All, inl, inr, add_u64,
}
use mathlib.Core.Bool.{decide}
use simply_kaspa_indexer.Cli.{contains}
use simply_kaspa_indexer.Models.{Bytes-discrete}
use simply_kaspa_indexer.Checkpoint.{CheckpointBlock}
use simply_kaspa_indexer.Checkpoint
use simply_kaspa_indexer.Processing.{reported}
use simply_kaspa_indexer.Processing.Blocks.Tests as OfBlocks
use simply_kaspa_indexer.Processing.Transactions.Tests as OfTransactions
use simply_kaspa_indexer.Processing.Saved.{done, left, right, History, IsRestart, run-IsRestart}

-- The reports of the transaction processor come between those of the block processor.
abbrev pub history : History
history = record {
  block_setup = OfBlocks.setup;
  block_rounds = OfBlocks.rounds;
  block_start = 0;
  block_state = OfBlocks.final;
  block_events = OfBlocks.all_events;
  block_rest = [];
  block_run = OfBlocks.run_rounds;
  tx_setup = OfTransactions.setup;
  tx_recalls = OfTransactions.recalls;
  tx_rounds = OfTransactions.rounds;
  tx_start = 0;
  tx_state = OfTransactions.final;
  tx_events = OfTransactions.all_events;
  tx_rest = [];
  tx_run = OfTransactions.run_rounds;
  events = _;
  interleaved = left (right (left (right (left (right (left (right done)))))));
}

abbrev round : ℕ → CheckpointBlock → Checkpoint.Round
round s m = record {
  message = m;
  select_time = s * 1_000_000_000;
  selected_time = s * 1_000_000_000;
  check_time = s * 1_000_000_000;
  reset_time = s * 1_000_000_000;
  save_succeeds = true;
}

abbrev pub messages : List Checkpoint.Round
messages =
    round 1 (OfBlocks.reported_at 20)
    ∷ round 2 (OfTransactions.reported_at 20)
    ∷ round 61 (OfBlocks.reported_at 21)
    ∷ round 62 (OfTransactions.reported_at 21)
    ∷ []

abbrev pub setup : Checkpoint.Setup
setup = record { disable_transaction_processing = false; net_bps = 10 }

abbrev pub final : Checkpoint.State
final = record {
  last_saved = 62 * 1_000_000_000;
  last_warned = 61 * 1_000_000_000;
  candidate = none;
  last_block_blue_score = 21;
  last_tx_blue_score = 21;
  txs_processed = [];
  cp_ok_txs = true;
  saved = OfBlocks.reported_at 21 ∷ [];
}

pub run-messages : Checkpoint.run setup messages (Checkpoint.init 0) ≡ some final
unfolding Checkpoint.run Checkpoint.step Checkpoint.init contains Bytes-discrete add_u64 decide
run-messages = refl

pub messages_taken :
    All (λ (r : Checkpoint.Round). Any (λ e. e ≡ reported r.message) history.events) messages
messages_taken = (
  inr (inr (inr (inr (inl refl)))),
  (
    inr (inr (inr (inr (inr (inl refl))))),
    (
      inr (inr (inr (inr (inr (inr (inl refl)))))),
      (inr (inr (inr (inr (inr (inr (inr (inl refl))))))), tt),
    ),
  ),
)

run-IsRestart_example : All (IsRestart history setup) (OfBlocks.reported_at 21 ∷ [])
run-IsRestart_example = run-IsRestart history setup messages 0 messages_taken run-messages
