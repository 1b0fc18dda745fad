-- ===== src/Database/Delete.antt =====
-- database/src/query/delete.rs: the `prune_*` functions, which delete expired rows in batches until
-- a statement deletes none, and `delete_transaction_acceptances`. A table is the list of its rows.
-- The condition of each statement is its WHERE clause, with the JOIN, under which a NULL is never
-- smaller. Which of the expired rows a statement with a LIMIT takes is PostgreSQL's choice, so the
-- statement is a parameter; `none` is an error.
pub mod Loop
pub mod First
use simply_kaspa_indexer.Prelude.{
  not, ℕ, zero, suc, ◌+◌, ◌≡◌, Bool, true, false, ◌&&◌, ◌||◌, Option, none, some, List, [], ◌∷◌,
  Bytes, ℤ, ltb_ℤ, if◌then◌else◌, add_u64, ◌==◌,
}
use simply_kaspa_indexer.Models.{
  Block, BlockParent, Transaction, TransactionAcceptance, AddressTransaction, ScriptTransaction,
  bytes_eq,
}

-- The loop of every `prune_*` function, with fuel. `deletes` is the statement: the rows that stay,
-- and how many it deleted.
pub data Pruned (R : Type 0) : Type 0 where
  done : ℕ → List R → Pruned R
  failed : List R → Pruned R
  overflowed out_of_fuel : Pruned R

module _ {R : Type 0} (deletes : List R → Option (List R × ℕ)) where
  unfoldable pub prune_rows : ℕ → ℕ → List R → Pruned R
  prune_rows zero total rows = out_of_fuel
  prune_rows (suc fuel) total rows = elim (deletes rows) [
    | none ↦ failed rows
    | some (rows', rows_affected) ↦
        if rows_affected == 0 then done total rows' else elim (add_u64 total rows_affected) [
          | none ↦ overflowed
          | some total' ↦ prune_rows fuel total' rows'
        ]
  ]

-- `any`, of a Boolean test.
abbrev pub any {ℓ} : {A : Type ℓ} → (A → Bool) → List A → Bool
any p [] = false
any p (x ∷ xs) = p x || any p xs

-- `x < $1` and `x = y` in SQL.
abbrev pub sql_lt : Option ℤ → ℤ → Bool
sql_lt none cutoff = false
sql_lt (some x) cutoff = ltb_ℤ x cutoff

abbrev pub sql_eq : Option Bytes → Option Bytes → Bool
sql_eq (some a) (some b) = bytes_eq a b
sql_eq _ _ = false

pub record Tables : Type 0 where
  pub blocks : List Block
  pub block_parent : List BlockParent
  pub transactions : List Transaction
  pub transactions_acceptances : List TransactionAcceptance
  pub addresses_transactions : List AddressTransaction
  pub scripts_transactions : List ScriptTransaction

-- `JOIN blocks b ON <hash> = b.hash WHERE b.blue_score < $1`.
unfoldable pub joins_old_block : List Block → ℤ → Option Bytes → Bool
joins_old_block blocks cutoff hash =
    any (λ (b : Block). sql_eq hash (some b.hash) && sql_lt b.blue_score cutoff) blocks

unfoldable pub joins_old_transaction : List Transaction → ℤ → Option Bytes → Bool
joins_old_transaction transactions cutoff id =
    any (λ (t : Transaction). sql_eq id (some t.transaction_id) && sql_lt t.block_time cutoff)
      transactions

module _ {ℓ} {A : Type ℓ} where
  -- The elements with a property, and their number.
  unfoldable pub retain : (A → Bool) → List A → List A
  retain p [] = []
  retain p (x ∷ xs) = if p x then x ∷ retain p xs else retain p xs

  unfoldable pub count : (A → Bool) → List A → ℕ
  count p [] = 0
  count p (x ∷ xs) = if p x then suc (count p xs) else count p xs

-- `DELETE FROM <table> WHERE ctid IN (SELECT ... WHERE <condition> LIMIT <limit>)`.
abbrev pub DeleteWhere : Type 1
DeleteWhere = (R : Type 0) → (R → Bool) → ℕ → List R → Option (List R × ℕ)

-- The result of a `prune_*` function, and the tables that it leaves.
pub data PruneResult : Type 0 where
  ok : ℕ → Tables → PruneResult
  err : Tables → PruneResult
  panic : PruneResult
  more_fuel : PruneResult

abbrev pub put_back : {R : Type 0} → (List R → Tables) → Pruned R → PruneResult
put_back put (done n rows) = ok n (put rows)
put_back put (failed rows) = err (put rows)
put_back put overflowed = panic
put_back put out_of_fuel = more_fuel

module _ (delete_where : DeleteWhere) (fuel : ℕ) where
  unfoldable pub prune_with :
      {R : Type 0} → (List R → Tables) → (R → Bool) → ℕ → List R → PruneResult
  unfolding prune_rows
  prune_with {R} put expired batch_size rows =
      put_back put (prune_rows (delete_where R expired batch_size) fuel 0 rows)

  unfoldable pub prune_block_parent : ℤ → ℕ → Tables → PruneResult
  unfolding prune_with
  prune_block_parent blue_score_lt batch_size t =
      prune_with (λ rows. record t { block_parent = rows })
        (λ bp. joins_old_block t.blocks blue_score_lt (some bp.block_hash)) batch_size
        t.block_parent

  unfoldable pub prune_transactions_acceptances_using_blocks : ℤ → ℕ → Tables → PruneResult
  unfolding prune_with
  prune_transactions_acceptances_using_blocks blue_score_lt batch_size t =
      prune_with (λ rows. record t { transactions_acceptances = rows })
        (λ ta. joins_old_block t.blocks blue_score_lt ta.block_hash) batch_size
        t.transactions_acceptances

  unfoldable pub prune_transactions_acceptances_using_transactions : ℤ → ℕ → Tables → PruneResult
  unfolding prune_with
  prune_transactions_acceptances_using_transactions block_time_lt batch_size t =
      prune_with (λ rows. record t { transactions_acceptances = rows })
        (λ ta. joins_old_transaction t.transactions block_time_lt ta.transaction_id) batch_size
        t.transactions_acceptances

  unfoldable pub prune_blocks : ℤ → ℕ → Tables → PruneResult
  unfolding prune_with
  prune_blocks blue_score_lt batch_size t =
      prune_with (λ rows. record t { blocks = rows }) (λ b. sql_lt b.blue_score blue_score_lt)
        batch_size t.blocks

  unfoldable pub prune_transactions : ℤ → ℕ → Tables → PruneResult
  unfolding prune_with
  prune_transactions block_time_lt batch_size t =
      prune_with (λ rows. record t { transactions = rows })
        (λ tx. sql_lt tx.block_time block_time_lt) batch_size t.transactions

  unfoldable pub prune_addresses_transactions : ℤ → ℕ → Tables → PruneResult
  unfolding prune_with
  prune_addresses_transactions block_time_lt batch_size t =
      prune_with (λ rows. record t { addresses_transactions = rows })
        (λ a. ltb_ℤ a.block_time block_time_lt) batch_size t.addresses_transactions

  unfoldable pub prune_scripts_transactions : ℤ → ℕ → Tables → PruneResult
  unfolding prune_with
  prune_scripts_transactions block_time_lt batch_size t =
      prune_with (λ rows. record t { scripts_transactions = rows })
        (λ s. ltb_ℤ s.block_time block_time_lt) batch_size t.scripts_transactions

-- `DELETE FROM transactions_acceptances WHERE block_hash = ANY($1)`: the rows that stay, and how
-- many are deleted.
unfoldable pub delete_transaction_acceptances :
    List Bytes → List TransactionAcceptance → List TransactionAcceptance × ℕ
delete_transaction_acceptances block_hashes rows =
    let hit =
      λ (ta : TransactionAcceptance). any (λ h. sql_eq ta.block_hash (some h)) block_hashes in
    (retain (λ ta. not (hit ta)) rows, count hit rows)
