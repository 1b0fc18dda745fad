-- ===== src/Database/Insert.antt =====
-- database/src/query/insert.rs and common.rs: the statements that insert rows. The text of a
-- statement is taken apart: its table, its columns, the numbers of its placeholders, row by row, what it does with a row that
-- is there already, and the values bound to it, in order.
pub mod Binds
mod Tests
use simply_kaspa_indexer.Prelude.{
  ℕ, zero, suc, ◌+◌, ◌*◌, Bool, Option, none, some, List, [], ◌∷◌, ◌++◌, map, Bytes, ℤ, length,
  if◌then◌else◌,
}
use simply_kaspa_indexer.Models.{
  Block, BlockParent, Transaction, TransactionInput, TransactionOutput, TransactionAcceptance,
  AddressTransaction, ScriptTransaction,
}

-- `(start..start + n)`.
unfoldable pub numbers_from : ℕ → ℕ → List ℕ
numbers_from start zero = []
numbers_from start (suc n) = start ∷ numbers_from (suc start) n

-- `generate_placeholders`, where a placeholder `$n` is `n`.
unfoldable pub generate_placeholders : ℕ → ℕ → List (List ℕ)
unfolding numbers_from
generate_placeholders rows columns =
    map (λ i. map (λ c. c + i * columns) (numbers_from 1 columns)) (numbers_from 0 rows)

pub data Table : Type 0 where
  blocks block_parent transactions addresses_transactions scripts_transactions : Table
  transactions_acceptances : Table

pub data Column : Type 0 where
  hash accepted_id_merkle_root transaction_ids merge_set_blues_hashes : Column
  merge_set_reds_hashes selected_parent_hash bits blue_score blue_work daa_score : Column
  hash_merkle_root nonce pruning_point timestamp utxo_commitment version : Column
  block_hash parent_hash transaction_id subnetwork_id mass payload block_time : Column
  inputs outputs address script_public_key : Column

-- A bound value; `none` is the NULL of SQL.
pub data Value : Type 0 where
  bytes : Option Bytes → Value
  number : Option ℤ → Value
  hashes : Option (List Bytes) → Value
  input_rows : Option (List TransactionInput) → Value
  output_rows : Option (List TransactionOutput) → Value

pub data OnConflict : Type 0 where
  do_nothing update_inputs : OnConflict

pub record Statement : Type 0 where
  pub table : Table
  pub columns : List Column
  pub placeholders : List (List ℕ)
  pub on_conflict : OnConflict
  pub binds : List Value

-- The loop that binds the values of each row.
unfoldable pub bind_rows : {A : Type 0} → (A → List Value) → List A → List Value
bind_rows values [] = []
bind_rows values (row ∷ rows) = values row ++ bind_rows values rows

abbrev pub block_columns : List Column
block_columns =
    Column.hash ∷ Column.accepted_id_merkle_root ∷ Column.transaction_ids
    ∷ Column.merge_set_blues_hashes ∷ Column.merge_set_reds_hashes ∷ Column.selected_parent_hash
    ∷ Column.bits ∷ Column.blue_score ∷ Column.blue_work ∷ Column.daa_score
    ∷ Column.hash_merkle_root ∷ Column.nonce ∷ Column.pruning_point ∷ Column.timestamp
    ∷ Column.utxo_commitment ∷ Column.version ∷ []

unfoldable pub block_values : Block → List Value
block_values block =
    bytes (some block.hash)
    ∷ bytes block.accepted_id_merkle_root
    ∷ hashes block.transaction_ids
    ∷ hashes block.merge_set_blues_hashes
    ∷ hashes block.merge_set_reds_hashes
    ∷ bytes block.selected_parent_hash
    ∷ number block.bits
    ∷ number block.blue_score
    ∷ bytes block.blue_work
    ∷ number block.daa_score
    ∷ bytes block.hash_merkle_root
    ∷ bytes block.nonce
    ∷ bytes block.pruning_point
    ∷ number block.timestamp
    ∷ bytes block.utxo_commitment
    ∷ number block.version
    ∷ []

unfoldable pub insert_blocks : List Block → Statement
unfolding generate_placeholders bind_rows block_values
insert_blocks rows = record {
  table = Table.blocks;
  columns = block_columns;
  placeholders = generate_placeholders (length rows) 16;
  on_conflict = do_nothing;
  binds = bind_rows block_values rows;
}

abbrev pub block_parent_columns : List Column
block_parent_columns = Column.block_hash ∷ Column.parent_hash ∷ []

unfoldable pub block_parent_values : BlockParent → List Value
block_parent_values row = bytes (some row.block_hash) ∷ bytes (some row.parent_hash) ∷ []

unfoldable pub insert_block_parents : List BlockParent → Statement
unfolding generate_placeholders bind_rows block_parent_values
insert_block_parents rows = record {
  table = Table.block_parent;
  columns = block_parent_columns;
  placeholders = generate_placeholders (length rows) 2;
  on_conflict = do_nothing;
  binds = bind_rows block_parent_values rows;
}

abbrev pub transaction_columns : List Column
transaction_columns =
    Column.transaction_id ∷ Column.subnetwork_id ∷ Column.hash ∷ Column.mass ∷ Column.payload
    ∷ Column.block_time ∷ Column.version ∷ Column.inputs ∷ Column.outputs ∷ Column.block_hash ∷ []

unfoldable pub transaction_values : Transaction → List Value
transaction_values tx =
    bytes (some tx.transaction_id)
    ∷ bytes tx.subnetwork_id
    ∷ bytes tx.hash
    ∷ number tx.mass
    ∷ bytes tx.payload
    ∷ number tx.block_time
    ∷ number tx.version
    ∷ input_rows tx.inputs
    ∷ output_rows tx.outputs
    ∷ bytes tx.block_hash
    ∷ []

unfoldable pub insert_transactions : List Transaction → Bool → Statement
unfolding generate_placeholders bind_rows transaction_values
insert_transactions rows upsert_inputs = record {
  table = Table.transactions;
  columns = transaction_columns;
  placeholders = generate_placeholders (length rows) 10;
  on_conflict = if upsert_inputs then update_inputs else do_nothing;
  binds = bind_rows transaction_values rows;
}

abbrev pub address_transaction_columns : List Column
address_transaction_columns = Column.address ∷ Column.transaction_id ∷ Column.block_time ∷ []

unfoldable pub address_transaction_values : AddressTransaction → List Value
address_transaction_values row =
    bytes (some row.address) ∷ bytes (some row.transaction_id) ∷ number (some row.block_time) ∷ []

unfoldable pub insert_address_transactions : List AddressTransaction → Statement
unfolding generate_placeholders bind_rows address_transaction_values
insert_address_transactions rows = record {
  table = Table.addresses_transactions;
  columns = address_transaction_columns;
  placeholders = generate_placeholders (length rows) 3;
  on_conflict = do_nothing;
  binds = bind_rows address_transaction_values rows;
}

abbrev pub script_transaction_columns : List Column
script_transaction_columns =
    Column.script_public_key ∷ Column.transaction_id ∷ Column.block_time ∷ []

unfoldable pub script_transaction_values : ScriptTransaction → List Value
script_transaction_values row =
    bytes (some row.script_public_key)
    ∷ bytes (some row.transaction_id)
    ∷ number (some row.block_time)
    ∷ []

unfoldable pub insert_script_transactions : List ScriptTransaction → Statement
unfolding generate_placeholders bind_rows script_transaction_values
insert_script_transactions rows = record {
  table = Table.scripts_transactions;
  columns = script_transaction_columns;
  placeholders = generate_placeholders (length rows) 3;
  on_conflict = do_nothing;
  binds = bind_rows script_transaction_values rows;
}

abbrev pub transaction_acceptance_columns : List Column
transaction_acceptance_columns = Column.transaction_id ∷ Column.block_hash ∷ []

unfoldable pub transaction_acceptance_values : TransactionAcceptance → List Value
transaction_acceptance_values ta = bytes ta.transaction_id ∷ bytes ta.block_hash ∷ []

unfoldable pub insert_transaction_acceptances : List TransactionAcceptance → Statement
unfolding generate_placeholders bind_rows transaction_acceptance_values
insert_transaction_acceptances rows = record {
  table = Table.transactions_acceptances;
  columns = transaction_acceptance_columns;
  placeholders = generate_placeholders (length rows) 2;
  on_conflict = do_nothing;
  binds = bind_rows transaction_acceptance_values rows;
}

-- A call of one of the client's insertions.
pub data Insertion : Type 0 where
  into_blocks : List Block → Insertion
  into_block_parent : List BlockParent → Insertion
  into_transactions : List Transaction → Bool → Insertion
  into_addresses_transactions : List AddressTransaction → Insertion
  into_scripts_transactions : List ScriptTransaction → Insertion
  into_transactions_acceptances : List TransactionAcceptance → Insertion

unfoldable pub statement : Insertion → Statement
unfolding insert_blocks insert_block_parents insert_transactions insert_address_transactions
    insert_script_transactions insert_transaction_acceptances
statement (into_blocks rows) = insert_blocks rows
statement (into_block_parent rows) = insert_block_parents rows
statement (into_transactions rows upsert_inputs) = insert_transactions rows upsert_inputs
statement (into_addresses_transactions rows) = insert_address_transactions rows
statement (into_scripts_transactions rows) = insert_script_transactions rows
statement (into_transactions_acceptances rows) = insert_transaction_acceptances rows
