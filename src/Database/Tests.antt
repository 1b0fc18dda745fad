-- ===== src/Database/Tests.antt =====
-- A statement that meets one deadlock, and a table that is pruned two rows at a time.
use simply_kaspa_indexer.Prelude.{◌||◌, ℕ, zero, suc, ◌≡◌, some, List, [], ◌∷◌, Bytes, arith, Bool}
use simply_kaspa_indexer.Database.Retry.{
  deadlock_code, Answer, ok, err, returned, retry_on_deadlock, retry_on_deadlock_attempts,
  is_deadlock,
}
use simply_kaspa_indexer.Models.{BlockParent, bytes_eq}
use simply_kaspa_indexer.Database.Delete.{Tables, count, prune_with}
use simply_kaspa_indexer.Database.Delete.Loop.{Prunes, prune_with-Prunes}
use simply_kaspa_indexer.Database.Delete.First.{delete_first, delete_first-IsDelete}

-- Errors are the codes that the database gives; the state is the number of attempts.
abbrev locked_once : ℕ → Answer Bytes × ℕ
locked_once zero = (err deadlock_code, 1)
locked_once (suc n) = (ok 5, suc (suc n))

retry_on_deadlock_attempts_example :
    retry_on_deadlock (λ (e : Bytes). some e) locked_once 0 ≡ returned (ok 5) 2
unfolding retry_on_deadlock is_deadlock bytes_eq
retry_on_deadlock_attempts_example =
    retry_on_deadlock_attempts (λ (e : Bytes). some e) locked_once 0

abbrev no_tables : Tables
no_tables = record {
  blocks = [];
  block_parent = [];
  transactions = [];
  transactions_acceptances = [];
  addresses_transactions = [];
  scripts_transactions = [];
}

abbrev put_parents : List BlockParent → Tables
put_parents rows = record no_tables { block_parent = rows }

abbrev parent : ℕ → BlockParent
parent n = record { block_hash = n ∷ []; parent_hash = 0 ∷ [] }

abbrev small : BlockParent → Bool
small row =
    bytes_eq row.block_hash (1 ∷ [])
    || bytes_eq row.block_hash (2 ∷ [])
    || bytes_eq row.block_hash (3 ∷ [])

abbrev parents : List BlockParent
parents = parent 1 ∷ parent 4 ∷ parent 2 ∷ parent 3 ∷ []

prune_with-Prunes_example :
    Prunes put_parents small parents (prune_with delete_first 4 put_parents small 2 parents)
unfolding count bytes_eq
prune_with-Prunes_example =
    prune_with-Prunes delete_first 4 put_parents small 2 parents delete_first-IsDelete (omega arith)
      (omega arith) (omega arith)
