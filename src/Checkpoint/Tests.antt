-- ===== src/Checkpoint/Tests.antt =====
-- Short histories of the checkpoint loop.
use mathlib.Core.Bool.{decide}
use simply_kaspa_indexer.Prelude.{
  ℕ, ◌*◌, ◌≡◌, refl, true, false, none, some, List, [], ◌∷◌, arith, inl, inr, All, Any, add_u64,
}
use simply_kaspa_indexer.Cli.{contains}
use simply_kaspa_indexer.Models.{Bytes-discrete}
use simply_kaspa_indexer.Checkpoint.{
  CheckpointOrigin, blocks, transactions, CheckpointBlock, Setup, State, Round, init, step, run,
}
use simply_kaspa_indexer.Checkpoint.Safety.{Justified, ReportedBlock, ReportedTxs, run-saved}
use simply_kaspa_indexer.Checkpoint.Progress.{run_saves_candidate}

abbrev second : ℕ
second = 1_000_000_000

abbrev setup : Setup
setup = record { disable_transaction_processing = false; net_bps = 10 }

abbrev report : CheckpointOrigin → ℕ → ℕ → CheckpointBlock
report o h score = record {
  origin = o;
  hash = h ∷ [];
  timestamp = 0;
  daa_score = score;
  blue_score = score;
}

abbrev at : ℕ → CheckpointBlock → Round
at s m = record {
  message = m;
  select_time = s * second;
  selected_time = s * second;
  check_time = s * second;
  reset_time = s * second;
  save_succeeds = true;
}

-- The transactions of block 7 come first, the block itself 61 seconds after the start.
abbrev history : List Round
history =
    at 1 (report blocks 5 100)
    ∷ at 2 (report transactions 7 102)
    ∷ at 61 (report blocks 7 102)
    ∷ at 62 (report transactions 9 103)
    ∷ []

program : Unit {0}
unfolding run step init contains Bytes-discrete add_u64 decide
program = tt

abbrev final : State
final = record {
  last_saved = 61 * second;
  last_warned = 61 * second;
  candidate = none;
  last_block_blue_score = 102;
  last_tx_blue_score = 103;
  txs_processed = (9 ∷ []) ∷ [];
  cp_ok_txs = true;
  saved = report blocks 7 102 ∷ [];
}

run-history : run setup history (init 0) ≡ some final
unfolding program
run-history = refl

run-saved_example :
    All (Justified setup (ReportedBlock history) (ReportedTxs history)) (report blocks 7 102 ∷ [])
run-saved_example = run-saved setup history 0 run-history

abbrev waiting : State
waiting = record final {
  candidate = some (report blocks 8 105);
  txs_processed = [];
  cp_ok_txs = false;
}

abbrev later : List Round
later =
    at 70 (report blocks 9 106)
    ∷ at 300 (report transactions 8 105)
    ∷ at 301 (report blocks 10 107)
    ∷ []

run_saves_candidate_example :
    (s' : State) × (run setup later waiting ≡ some s') × Any (λ x. report blocks 8 105 ≡ x) s'.saved
run_saves_candidate_example =
    run_saves_candidate setup later (report blocks 8 105) waiting refl (omega arith) (omega arith)
      (
        record { accepted = refl; fits = omega arith },
        (
          record { accepted = refl; fits = omega arith },
          (record { accepted = refl; fits = omega arith }, tt),
        ),
      )
      ((λ _. omega arith), ((λ _. omega arith), ((λ _. omega arith), tt))) (inr (inl (refl, refl)))
