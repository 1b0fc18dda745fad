-- ===== src/Prune.antt =====
-- indexer/src/prune.rs: `prune`, one run of the pruning job, and `prune_step`. The times that the
-- metrics show are left out. `shutdown i` is what the i-th call of `is_shutdown` answers, and
-- `millis_before` is the checkpoint's time less a duration, in milliseconds (`none` where chrono
-- panics). A duration is a number of nanoseconds. `server` is how the database answers.
pub mod Parts
pub mod Steps
pub mod Complete
pub mod Integrity
mod Tests
use simply_kaspa_indexer.Prelude.{
  ℕ, zero, suc, ◌+◌, ◌-◌, ◌*◌, ◌/◌, ◌^◌, ◌≡◌, min, Bool, true, false, not, ◌&&◌, Option, none, some,
  List, [], ◌∷◌, ℤ, pos, as_i64, mul_u64, ◌>>=◌, if◌then◌else◌, ◌==◌,
}
use simply_kaspa_indexer.Cli.{
  CliArgs, CliDisable, CliField, PruningConfig, is_disabled, is_excluded,
}
use simply_kaspa_indexer.Database.Delete.{Tables, PruneResult, ok, err, panic, more_fuel}
use simply_kaspa_indexer.Database.Client.{
  Server, prune_block_parent, prune_transactions_acceptances_using_blocks,
  prune_transactions_acceptances_using_transactions, prune_blocks, prune_transactions,
  prune_addresses_transactions, prune_scripts_transactions,
}

-- The names of the steps.
pub data StepName : Type 0 where
  block_parent transactions_acceptances_b transactions_acceptances_t blocks : StepName
  transactions addresses_transactions scripts_transactions : StepName

-- `MetricsComponentDbPrunerResult`, without its times but the cutoff.
pub record StepResult : Type 0 where
  pub cutoff_time : ℤ
  pub success : Option Bool
  pub rows_deleted : Option ℕ

-- `metrics.components.db_pruner`; the last entry of a name stands first in `results`.
pub record DbPruner : Type 0 where
  pub enabled : Bool
  pub running : Option Bool
  pub results : List (StepName × StepResult)
  pub completed_successfully : Option Bool

-- What a run changes. `asked` counts the calls of `is_shutdown`.
pub record State : Type 0 where
  pub db_pruner : DbPruner
  pub tables : Tables
  pub step_errors : ℕ
  pub asked : ℕ

-- A part of the run goes on, has returned from `prune`, or has panicked (or has no fuel left).
pub data Flow : Type 0 where
  goes_on : State → Flow
  returned : State → Flow
  panicked : Flow

infixl 5 ◌>>>◌
abbrev pub ◌>>>◌ : Flow → (State → Flow) → Flow
goes_on s >>> f = f s
returned s >>> f = returned s
panicked >>> f = panicked

abbrev pub try_with : {A : Type 0} → Option A → (A → Flow) → Flow
try_with none f = panicked
try_with (some a) f = f a

abbrev pub insert_result : StepName → StepResult → State → State
insert_result name result s = record s {
  db_pruner = record s.db_pruner { results = (name, result) ∷ s.db_pruner.results };
}

-- What follows the statement's answer.
unfoldable pub after_call : StepName → ℤ → PruneResult → State → Flow
after_call name cutoff_time (ok rows_affected t) s = goes_on (
    insert_result name
      (record { cutoff_time = cutoff_time; success = some true; rows_deleted = some rows_affected })
      (record s { tables = t }))
after_call name cutoff_time (err t) s = goes_on (
    insert_result name
      (record { cutoff_time = cutoff_time; success = some false; rows_deleted = none })
      (record s { tables = t; step_errors = s.step_errors + 1 }))
after_call name cutoff_time panic s = panicked
after_call name cutoff_time more_fuel s = panicked

unfoldable pub prune_step : StepName → (ℤ → ℤ → Tables → PruneResult) → ℤ → ℤ → State → Flow
unfolding after_call
prune_step name db_call cutoff_blue_score cutoff_time s =
    let s₁ =
      insert_result name (record { cutoff_time = cutoff_time; success = none; rows_deleted = none })
        s in
    after_call name cutoff_time (db_call cutoff_blue_score cutoff_time s.tables) s₁

-- What a run reads: the options, the resolved pruning options, the network's blocks per second, and
-- the blue score of the checkpoint's block, if there is one.
pub record Setup : Type 1 where
  pub cli_args : CliArgs
  pub config : PruningConfig
  pub net_bps : ℕ
  pub checkpoint_blue_score : Option ℕ
  pub millis_before : ℕ → Option ℤ
  pub shutdown : ℕ → Bool
  pub server : Server
  pub fuel : ℕ

-- `Duration::MAX`, and the lesser of two durations of which the second may be missing.
abbrev pub duration_max : ℕ
duration_max = (2 ^ 64 - 1) * 1000000000 + 999999999

abbrev pub min_with : ℕ → Option ℕ → ℕ
min_with retention none = min retention duration_max
min_with retention (some other) = min retention other

-- `score.saturating_sub(retention.as_secs() * net_bps) as i64`.
unfoldable pub blue_score_before : ℕ → ℕ → ℕ → Option ℤ
unfolding mul_u64
blue_score_before net_bps score retention =
    mul_u64 (retention / 1000000000) net_bps >>= λ behind. some (as_i64 (score - behind))

module _ (setup : Setup) (score : ℕ) where
  abbrev pub args : CliArgs
  args = setup.cli_args

  abbrev pub batch_size : ℕ
  batch_size = setup.cli_args.pruning.prune_batch_size

  abbrev pub both_cutoffs : ℕ → (ℤ → ℤ → Flow) → Flow
  both_cutoffs retention f =
      try_with (blue_score_before setup.net_bps score retention)
        (λ blue_score. try_with (setup.millis_before retention) (f blue_score))

  -- `return_on_shutdown!`.
  unfoldable pub return_on_shutdown : State → Flow
  return_on_shutdown s =
      let s₁ = record s { asked = s.asked + 1 } in
      if setup.shutdown s.asked then returned s₁ else goes_on s₁

  unfoldable pub block_parent_step : Option ℕ → State → Flow
  unfolding prune_step return_on_shutdown blue_score_before
  block_parent_step none s = goes_on s
  block_parent_step (some retention) s =
      both_cutoffs (min_with retention setup.config.retention_blocks)
        (λ cutoff_blue_score cutoff_time.
          return_on_shutdown s
          >>> prune_step StepName.block_parent
              (λ blue_score _. prune_block_parent setup.server setup.fuel blue_score batch_size)
              cutoff_blue_score cutoff_time)

  unfoldable pub acceptances_step : Option ℕ → State → Flow
  unfolding prune_step return_on_shutdown blue_score_before is_disabled
  acceptances_step none s = goes_on s
  acceptances_step (some retention) s = return_on_shutdown s >>> λ s₁.
      if not (is_disabled args CliDisable.blocks_table)
      then both_cutoffs (min_with retention setup.config.retention_blocks)
          (λ cutoff_blue_score cutoff_time.
            prune_step StepName.transactions_acceptances_b
              (λ blue_score _.
                prune_transactions_acceptances_using_blocks setup.server setup.fuel blue_score
                  batch_size)
              cutoff_blue_score cutoff_time s₁)
      else (if not (is_disabled args CliDisable.transactions_table)
            && not (is_disabled args CliDisable.transaction_processing)
            && not (is_disabled args CliDisable.transaction_acceptance)
          then try_with
              (setup.millis_before (min_with retention setup.config.retention_transactions))
              (λ cutoff_time.
                prune_step StepName.transactions_acceptances_t
                  (λ _ time_ms.
                    prune_transactions_acceptances_using_transactions setup.server setup.fuel
                      time_ms batch_size)
                  (pos 0) cutoff_time s₁)
          else goes_on s₁)

  unfoldable pub blocks_step : Option ℕ → State → Flow
  unfolding prune_step return_on_shutdown blue_score_before
  blocks_step none s = goes_on s
  blocks_step (some retention) s = both_cutoffs retention (λ cutoff_blue_score cutoff_time.
      return_on_shutdown s
      >>> prune_step StepName.blocks
          (λ blue_score _. prune_blocks setup.server setup.fuel blue_score batch_size)
          cutoff_blue_score cutoff_time)

  unfoldable pub transactions_step : Option ℕ → State → Flow
  unfolding prune_step return_on_shutdown
  transactions_step none s = goes_on s
  transactions_step (some retention) s = try_with (setup.millis_before retention) (λ cutoff_time.
      return_on_shutdown s
      >>> prune_step StepName.transactions
          (λ _ time_ms. prune_transactions setup.server setup.fuel time_ms batch_size) (pos 0)
          cutoff_time)

  unfoldable pub addresses_step : Option ℕ → State → Flow
  unfolding prune_step return_on_shutdown is_excluded
  addresses_step none s = goes_on s
  addresses_step (some retention) s = try_with (setup.millis_before retention) (λ cutoff_time.
      return_on_shutdown s >>> λ s₁.
      if not (is_excluded args CliField.tx_out_script_public_key_address)
      then prune_step StepName.addresses_transactions
          (λ _ time_ms. prune_addresses_transactions setup.server setup.fuel time_ms batch_size)
          (pos 0) cutoff_time s₁
      else prune_step StepName.scripts_transactions
          (λ _ time_ms. prune_scripts_transactions setup.server setup.fuel time_ms batch_size)
          (pos 0) cutoff_time s₁)

  abbrev pub finish : State → Flow
  finish s = returned (record s {
    db_pruner = record s.db_pruner {
      running = some false;
      completed_successfully = some (s.step_errors == 0);
    };
  })

abbrev pub is_some_true : Option Bool → Bool
is_some_true none = false
is_some_true (some b) = b

-- A run, from the state of the metrics and the tables.
unfoldable pub prune : Setup → DbPruner → Tables → Flow
unfolding block_parent_step acceptances_step blocks_step transactions_step addresses_step
prune setup db_pruner tables =
    let s : State = record { db_pruner = db_pruner; tables = tables; step_errors = 0; asked = 0 } in
    if is_some_true db_pruner.running
    then returned s
    else try_with setup.checkpoint_blue_score (λ score.
      block_parent_step setup score setup.config.retention_block_parent
        (record s { db_pruner = record db_pruner { running = some true; results = [] } })
      >>> acceptances_step setup score setup.config.retention_transactions_acceptances
      >>> blocks_step setup score setup.config.retention_blocks
      >>> transactions_step setup score setup.config.retention_transactions
      >>> addresses_step setup score setup.config.retention_addresses_transactions
      >>> finish setup score)
