-- ===== src/Database/Insert/Binds.antt =====
-- Each placeholder of an insertion stands for the value of its row and column.
use simply_kaspa_indexer.Prelude.{
  ℕ, zero, suc, ◌+◌, ◌*◌, ◌≡◌, refl, ap, ◌∙◌, Option, none, some, List, [], ◌∷◌, ◌++◌, map, length,
  length-append, append_assoc, arith,
}
use simply_kaspa_indexer.Models.{
  Block, BlockParent, Transaction, AddressTransaction, ScriptTransaction, TransactionAcceptance,
}
use simply_kaspa_indexer.Database.Insert.{
  block_values, block_parent_values, transaction_values, address_transaction_values,
  script_transaction_values, transaction_acceptance_values, block_columns, block_parent_columns,
  address_transaction_columns, script_transaction_columns, transaction_acceptance_columns,
  transaction_columns, Insertion, into_blocks, into_block_parent, into_transactions,
  into_addresses_transactions, into_scripts_transactions, into_transactions_acceptances, statement,
  insert_blocks, insert_block_parents, insert_transactions, insert_address_transactions,
  insert_script_transactions, insert_transaction_acceptances, into_blocks, Insertion,
  transaction_acceptance_values, script_transaction_values, address_transaction_values,
  transaction_values, block_parent_values, block_values, numbers_from, generate_placeholders,
  Column, Value, bytes, number, hashes, input_rows, output_rows, Statement, bind_rows,
}

-- PostgreSQL counts the bound values from 1.
unfoldable pub nth : {A : Type 0} → ℕ → List A → Option A
nth zero vs = none
nth (suc n) [] = none
nth (suc zero) (v ∷ vs) = some v
nth (suc (suc n)) (v ∷ vs) = nth (suc n) vs

-- The rows that the server is given: the values of its placeholders, in the order of the columns.
unfoldable pub received : Statement → List (List (Option Value))
unfolding nth
received s = map (λ numbers. map (λ n. nth n s.binds) numbers) s.placeholders

map-map :
    {A B C : Type 0} (g : B → C) (f : A → B) (xs : List A)
    → map g (map f xs) ≡ map (λ a. g (f a)) xs
map-map g f [] = refl
map-map g f (x ∷ xs) = ap (◌∷◌ (g (f x))) (map-map g f xs)

cons_eq : {A : Type 0} {x y : A} {xs ys : List A} → x ≡ y → xs ≡ ys → x ∷ xs ≡ y ∷ ys
cons_eq p q = cc

module _ {A : Type 0} where
  nth-append : (pre post : List A) (v : A) → nth (suc (length pre)) (pre ++ v ∷ post) ≡ some v
  unfolding nth
  nth-append [] post v = refl
  nth-append (p ∷ pre) post v = nth-append pre post v

  nth-range :
      (pre vs post : List A) (start : ℕ) (base : ℕ)
      → start + base ≡ suc (length pre)
      → map (λ c. nth (c + base) (pre ++ (vs ++ post))) (numbers_from start (length vs))
        ≡ map some vs
  unfolding numbers_from nth
  nth-range pre [] post start base e = refl
  nth-range pre (v ∷ vs) post start base e = cons_eq (rw e (nth-append pre (vs ++ post) v)) (
      rw (append_assoc pre (v ∷ []) (vs ++ post)) at (
        nth-range (pre ++ v ∷ []) vs post (suc start) base
          (omega (arith, length-append pre (v ∷ []), e))))

module _ {A : Type 0} (values : A → List Value) (cols : ℕ)
    (full : (a : A) → length (values a) ≡ cols) where
  rows_received :
      (pre : List Value) (rows : List A) (i : ℕ)
      → i * cols ≡ length pre
      → map
          (λ j.
            map
              (λ n. nth n (pre ++ bind_rows values rows))
              (map (λ c. c + j * cols) (numbers_from 1 cols)))
          (numbers_from i (length rows))
        ≡ map (λ row. map some (values row)) rows
  unfolding numbers_from bind_rows
  rows_received pre [] i e = refl
  rows_received pre (row ∷ rows) i e =
      cons_eq
        (map-map _ _ (numbers_from 1 cols)
          ∙ rw (full row) at
              (nth-range pre (values row) (bind_rows values rows) 1 (i * cols) (omega (arith, e))))
        (rw (append_assoc pre (values row) (bind_rows values rows)) at (
          rows_received (pre ++ values row) rows (suc i)
            (omega (arith, length-append pre (values row), full row, e))))

  received_rows :
      (rows : List A)
      → map
          (λ numbers. map (λ n. nth n (bind_rows values rows)) numbers)
          (generate_placeholders (length rows) cols)
        ≡ map (λ row. map some (values row)) rows
  unfolding generate_placeholders
  received_rows rows =
      map-map _ _ (numbers_from 0 (length rows)) ∙ rows_received [] rows 0 (omega arith)

-- What a column of a table holds for a row: the row's field of that name.
unfoldable pub block_field : Column → Block → Option Value
block_field Column.hash row = some (bytes (some row.hash))
block_field Column.accepted_id_merkle_root row = some (bytes row.accepted_id_merkle_root)
block_field Column.transaction_ids row = some (hashes row.transaction_ids)
block_field Column.merge_set_blues_hashes row = some (hashes row.merge_set_blues_hashes)
block_field Column.merge_set_reds_hashes row = some (hashes row.merge_set_reds_hashes)
block_field Column.selected_parent_hash row = some (bytes row.selected_parent_hash)
block_field Column.bits row = some (number row.bits)
block_field Column.blue_score row = some (number row.blue_score)
block_field Column.blue_work row = some (bytes row.blue_work)
block_field Column.daa_score row = some (number row.daa_score)
block_field Column.hash_merkle_root row = some (bytes row.hash_merkle_root)
block_field Column.nonce row = some (bytes row.nonce)
block_field Column.pruning_point row = some (bytes row.pruning_point)
block_field Column.timestamp row = some (number row.timestamp)
block_field Column.utxo_commitment row = some (bytes row.utxo_commitment)
block_field Column.version row = some (number row.version)
block_field _ row = none

unfoldable pub block_parent_field : Column → BlockParent → Option Value
block_parent_field Column.block_hash row = some (bytes (some row.block_hash))
block_parent_field Column.parent_hash row = some (bytes (some row.parent_hash))
block_parent_field _ row = none

unfoldable pub transaction_field : Column → Transaction → Option Value
transaction_field Column.transaction_id row = some (bytes (some row.transaction_id))
transaction_field Column.subnetwork_id row = some (bytes row.subnetwork_id)
transaction_field Column.hash row = some (bytes row.hash)
transaction_field Column.mass row = some (number row.mass)
transaction_field Column.payload row = some (bytes row.payload)
transaction_field Column.block_time row = some (number row.block_time)
transaction_field Column.version row = some (number row.version)
transaction_field Column.inputs row = some (input_rows row.inputs)
transaction_field Column.outputs row = some (output_rows row.outputs)
transaction_field Column.block_hash row = some (bytes row.block_hash)
transaction_field _ row = none

unfoldable pub address_transaction_field : Column → AddressTransaction → Option Value
address_transaction_field Column.address row = some (bytes (some row.address))
address_transaction_field Column.transaction_id row = some (bytes (some row.transaction_id))
address_transaction_field Column.block_time row = some (number (some row.block_time))
address_transaction_field _ row = none

unfoldable pub script_transaction_field : Column → ScriptTransaction → Option Value
script_transaction_field Column.script_public_key row = some (bytes (some row.script_public_key))
script_transaction_field Column.transaction_id row = some (bytes (some row.transaction_id))
script_transaction_field Column.block_time row = some (number (some row.block_time))
script_transaction_field _ row = none

unfoldable pub transaction_acceptance_field : Column → TransactionAcceptance → Option Value
transaction_acceptance_field Column.transaction_id row = some (bytes row.transaction_id)
transaction_acceptance_field Column.block_hash row = some (bytes row.block_hash)
transaction_acceptance_field _ row = none

pairs : {A B : Type 0} → List A → List B → List (A × B)
pairs [] bs = []
pairs (a ∷ rest) [] = []
pairs (a ∷ rest) (b ∷ bs) = (a, b) ∷ pairs rest bs

-- What the server stores: for each row, the columns with their values.
unfoldable pub stored : Statement → List (List (Column × Option Value))
unfolding pairs received
stored s = map (pairs s.columns) (received s)

abbrev fields :
    {A : Type 0}
    → List Column
    → (Column → A → Option Value)
    → List A
    → List (List (Column × Option Value))
fields columns field rows = map (λ row. map (λ c. (c, field c row)) columns) rows

unfoldable pub described : Insertion → List (List (Column × Option Value))
unfolding block_field block_parent_field transaction_field address_transaction_field
    script_transaction_field transaction_acceptance_field
described (into_blocks rows) = fields block_columns block_field rows
described (into_block_parent rows) = fields block_parent_columns block_parent_field rows
described (into_transactions rows upsert_inputs) = fields transaction_columns transaction_field rows
described (into_addresses_transactions rows) =
    fields address_transaction_columns address_transaction_field rows
described (into_scripts_transactions rows) =
    fields script_transaction_columns script_transaction_field rows
described (into_transactions_acceptances rows) =
    fields transaction_acceptance_columns transaction_acceptance_field rows

module _ {A : Type 0} (values : A → List Value) (cols : ℕ)
    (full : (a : A) → length (values a) ≡ cols) where
  stored_rows :
      (columns : List Column) (rows : List A)
      → map (pairs columns) (
          map
            (λ numbers. map (λ n. nth n (bind_rows values rows)) numbers)
            (generate_placeholders (length rows) cols))
        ≡ map (λ row. pairs columns (map some (values row))) rows
  stored_rows columns rows =
      ap (map (pairs columns)) (received_rows values cols full rows) ∙ map-map _ _ rows

-- Whatever rows are inserted, of whatever number, PostgreSQL stores in each row and column the field
-- of that name: the numbers of the placeholders and the order of the bound values agree with the
-- list of the columns.
pub stored-statement : (i : Insertion) → stored (statement i) ≡ described i
unfolding described stored statement insert_blocks insert_block_parents insert_transactions
    insert_address_transactions insert_script_transactions insert_transaction_acceptances
stored-statement (into_blocks rows) = stored_rows block_values 16 (λ a. refl) block_columns rows
stored-statement (into_block_parent rows) =
    stored_rows block_parent_values 2 (λ a. refl) block_parent_columns rows
stored-statement (into_transactions rows upsert_inputs) =
    stored_rows transaction_values 10 (λ a. refl) transaction_columns rows
stored-statement (into_addresses_transactions rows) =
    stored_rows address_transaction_values 3 (λ a. refl) address_transaction_columns rows
stored-statement (into_scripts_transactions rows) =
    stored_rows script_transaction_values 3 (λ a. refl) script_transaction_columns rows
stored-statement (into_transactions_acceptances rows) =
    stored_rows transaction_acceptance_values 2 (λ a. refl) transaction_acceptance_columns rows
