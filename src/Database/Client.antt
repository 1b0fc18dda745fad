-- ===== src/Database/Client.antt =====
-- database/src/client.rs: how the client calls the functions of Database.Delete that prune a table. After
-- a deadlock it starts the whole function again. An attempt has its own statements, as the database
-- need not answer the same statement in the same way; `error_code` is the code of the error that an attempt
-- ended with, from the tables that it left.
pub mod Pruned
use simply_kaspa_indexer.Prelude.{ℕ, suc, Option, none, some, Bytes, ℤ}
use simply_kaspa_indexer.Database.Retry.{Answer, Outcome, retry_on_deadlock}
use simply_kaspa_indexer.Database.Delete
use simply_kaspa_indexer.Database.Delete.{
  Tables, DeleteWhere, PruneResult, ok, err, panic, more_fuel,
}

pub record Server : Type 1 where
  pub delete_where : ℕ → DeleteWhere
  pub error_code : ℕ → Tables → Option Bytes

-- An attempt that panics, or has no fuel left, is not followed by another.
pub data PruneError : Type 0 where
  failed : Option Bytes → PruneError
  panicked : PruneError
  exhausted : PruneError

abbrev pub database_code : PruneError → Option Bytes
database_code (failed c) = c
database_code panicked = none
database_code exhausted = none

-- The number of the attempt, and the tables.
abbrev pub Sent : Type 0
Sent = Answer PruneError × (ℕ × Tables)

abbrev pub Prune : Type 1
Prune = DeleteWhere → Tables → PruneResult

module _ (server : Server) where
  abbrev pub noted : ℕ → Tables → PruneResult → Sent
  noted i t (ok n t') = (Answer.ok n, (suc i, t'))
  noted i t (err t') = (Answer.err (failed (server.error_code i t')), (suc i, t'))
  noted i t panic = (Answer.err panicked, (suc i, t))
  noted i t more_fuel = (Answer.err exhausted, (suc i, t))

  abbrev pub attempt : Prune → ℕ × Tables → Sent
  attempt f s = noted s.0 s.1 (f (server.delete_where s.0) s.1)

  abbrev pub result_of : Outcome PruneError (ℕ × Tables) → PruneResult
  result_of (Outcome.returned (Answer.ok n) s) = ok n s.1
  result_of (Outcome.returned (Answer.err (failed c)) s) = err s.1
  result_of (Outcome.returned (Answer.err panicked) s) = panic
  result_of (Outcome.returned (Answer.err exhausted) s) = more_fuel
  result_of (Outcome.unreachable s) = panic

  unfoldable pub retried : Prune → Tables → PruneResult
  unfolding retry_on_deadlock
  retried f t = result_of (retry_on_deadlock database_code (attempt f) (1, t))

  module _ (fuel : ℕ) where
    unfoldable pub prune_block_parent : ℤ → ℕ → Tables → PruneResult
    unfolding retried
    prune_block_parent blue_score_lt batch_size =
        retried (λ d. Delete.prune_block_parent d fuel blue_score_lt batch_size)

    unfoldable pub prune_transactions_acceptances_using_blocks : ℤ → ℕ → Tables → PruneResult
    unfolding retried
    prune_transactions_acceptances_using_blocks blue_score_lt batch_size =
        retried
          (λ d. Delete.prune_transactions_acceptances_using_blocks d fuel blue_score_lt batch_size)

    unfoldable pub prune_transactions_acceptances_using_transactions : ℤ → ℕ → Tables → PruneResult
    unfolding retried
    prune_transactions_acceptances_using_transactions block_time_lt batch_size = retried (λ d.
        Delete.prune_transactions_acceptances_using_transactions d fuel block_time_lt batch_size)

    unfoldable pub prune_blocks : ℤ → ℕ → Tables → PruneResult
    unfolding retried
    prune_blocks blue_score_lt batch_size =
        retried (λ d. Delete.prune_blocks d fuel blue_score_lt batch_size)

    unfoldable pub prune_transactions : ℤ → ℕ → Tables → PruneResult
    unfolding retried
    prune_transactions block_time_lt batch_size =
        retried (λ d. Delete.prune_transactions d fuel block_time_lt batch_size)

    unfoldable pub prune_addresses_transactions : ℤ → ℕ → Tables → PruneResult
    unfolding retried
    prune_addresses_transactions block_time_lt batch_size =
        retried (λ d. Delete.prune_addresses_transactions d fuel block_time_lt batch_size)

    unfoldable pub prune_scripts_transactions : ℤ → ℕ → Tables → PruneResult
    unfolding retried
    prune_scripts_transactions block_time_lt batch_size =
        retried (λ d. Delete.prune_scripts_transactions d fuel block_time_lt batch_size)
