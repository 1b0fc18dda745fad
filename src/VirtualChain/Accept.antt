-- ===== src/VirtualChain/Accept.antt =====
-- indexer/src/virtual_chain/accept_transactions.rs, add_chain_blocks.rs and remove_chain_blocks.rs: what
-- the virtual chain processor writes for a response. The cache of transaction ids lives for one call;
-- it is an argument, as in Processing.Transactions. The insertions run at the same time; here their
-- statements stand one behind the other.
pub mod Loops
pub mod Sends
pub mod Removal
pub mod Tests
use simply_kaspa_indexer.Prelude.{
  ℕ, suc, ◌+◌, min, Bool, true, not, Option, none, some, List, [], ◌∷◌, ◌++◌, map, Bytes,
  if◌then◌else◌, ◌>>=◌,
}
use simply_kaspa_indexer.Cli.{
  CliArgs, transactions_table, addresses_transactions_table, CliField, is_disabled, is_excluded,
}
use simply_kaspa_indexer.Models.{
  Transaction, TransactionAcceptance, AddressTransaction, ScriptTransaction, address_transaction_eq,
  script_transaction_eq,
}
use simply_kaspa_indexer.Mapping.Rpc.{RpcOptionalTransaction}
use simply_kaspa_indexer.Mapping.Mapper.{
  KaspaDbMapper, map_optional_transaction, map_optional_transaction_inputs_address,
  map_optional_transaction_outputs_address, map_optional_transaction_inputs_script,
  map_optional_transaction_outputs_script, is_self_send_full,
}
use simply_kaspa_indexer.Database.Insert.{Insertion, into_transactions_acceptances}
use simply_kaspa_indexer.Database.Delete.{delete_transaction_acceptances}
use simply_kaspa_indexer.Database.Batches.{
  chunks, insert_txs, insert_tx_addr, insert_tx_script, insert_transaction_acceptances,
  chain_blocks_size,
}
use simply_kaspa_indexer.Processing.{Event, send}
use simply_kaspa_indexer.Processing.Transactions.{extend}

-- `RpcChainBlockAcceptedTransactions`, with the fields that are read of the chain block's header.
pub record ChainBlock : Type 0 where
  pub hash : Option Bytes
  pub timestamp : Option ℕ
  pub daa_score : Option ℕ
  pub blue_score : Option ℕ
  pub accepted_transactions : List RpcOptionalTransaction

pub record Setup : Type 0 where
  pub args : CliArgs
  pub mapper : KaspaDbMapper
  pub scaled : ℕ → ℕ
  pub contains_key : ℕ → List Bytes → Bytes → Bool

abbrev pub disable_address_transactions : Setup → Bool
disable_address_transactions setup = is_disabled setup.args addresses_transactions_table

abbrev pub exclude_address : Setup → Bool
exclude_address setup = is_excluded setup.args CliField.tx_out_script_public_key_address

-- The local variables.
pub record Collected : Type 0 where
  pub accepted_transactions : List TransactionAcceptance
  pub transactions : List Transaction
  pub address_transactions : List AddressTransaction
  pub script_transactions : List ScriptTransaction
  pub cached : List Bytes

abbrev pub nothing_yet : Collected
nothing_yet = record {
  accepted_transactions = [];
  transactions = [];
  address_transactions = [];
  script_transactions = [];
  cached = [];
}

-- The rows of a transaction, for each of the tables; none where the options leave them out.
unfoldable pub transaction_rows : Setup → RpcOptionalTransaction → Option (List Transaction)
unfolding map_optional_transaction
transaction_rows setup t =
    if is_disabled setup.args transactions_table
    then some []
    else (map_optional_transaction setup.mapper t >>= λ row. some (row ∷ []))

unfoldable pub address_rows : Setup → RpcOptionalTransaction → Option (List AddressTransaction)
unfolding map_optional_transaction_inputs_address map_optional_transaction_outputs_address
address_rows setup t =
    if disable_address_transactions setup
    then some []
    else if exclude_address setup
    then some []
    else (map_optional_transaction_inputs_address setup.mapper t >>= λ inputs.
        map_optional_transaction_outputs_address setup.mapper t >>= λ outputs.
        some (inputs ++ outputs))

unfoldable pub script_rows : Setup → RpcOptionalTransaction → Option (List ScriptTransaction)
unfolding map_optional_transaction_inputs_script map_optional_transaction_outputs_script
script_rows setup t =
    if disable_address_transactions setup
    then some []
    else if exclude_address setup
    then (if is_excluded setup.args CliField.tx_out_script_public_key
        then some []
        else (map_optional_transaction_inputs_script setup.mapper t >>= λ inputs.
            map_optional_transaction_outputs_script setup.mapper t >>= λ outputs.
            some (inputs ++ outputs)))
    else some []

unfoldable pub id_of : RpcOptionalTransaction → Option Bytes
id_of t = t.verbose_data >>= λ v. v.transaction_id

unfoldable pub add : Setup → RpcOptionalTransaction → Bytes → Collected → Option Collected
unfolding transaction_rows address_rows script_rows extend
add setup t id s = do
  rows ← transaction_rows setup t
  addresses ← address_rows setup t
  scripts ← script_rows setup t
  some (record s {
    transactions = s.transactions ++ rows;
    address_transactions = extend address_transaction_eq s.address_transactions addresses;
    script_transactions = extend script_transaction_eq s.script_transactions scripts;
    cached = id ∷ s.cached;
  })

abbrev pub accept_row : Bytes → Bytes → TransactionAcceptance
accept_row block_hash id = record { transaction_id = some id; block_hash = some block_hash }

-- The body of the loop over the transactions of a block.
unfoldable pub accept : Setup → ℕ → Bytes → RpcOptionalTransaction → Collected → Option Collected
unfolding is_self_send_full id_of add
accept setup now block_hash t s = is_self_send_full setup.mapper t >>= λ self_send.
    if self_send
    then some s
    else (id_of t >>= λ id.
        let s' = record s {
          accepted_transactions = s.accepted_transactions ++ accept_row block_hash id ∷ [];
        } in
        if setup.contains_key now s.cached id then some s' else add setup t id s')

unfoldable pub accept_all :
    Setup → (ℕ → ℕ) → Bytes → List RpcOptionalTransaction → Collected → Option Collected
unfolding accept
accept_all setup time block_hash [] s = some s
accept_all setup time block_hash (t ∷ ts) s = do
  s' ← accept setup (time 0) block_hash t s
  accept_all setup (λ i. time (suc i)) block_hash ts s'

-- The loop over the chain blocks; `time` is the time of each of their transactions.
unfoldable pub accept_blocks : Setup → (ℕ → ℕ → ℕ) → List ChainBlock → Collected → Option Collected
unfolding accept_all
accept_blocks setup time [] s = some s
accept_blocks setup time (b ∷ bs) s = do
  block_hash ← b.hash
  s' ← accept_all setup (time 0) block_hash b.accepted_transactions s
  accept_blocks setup (λ i. time (suc i)) bs s'

unfoldable pub address_calls : Setup → Collected → Option (List Insertion)
unfolding insert_tx_addr insert_tx_script
address_calls setup s =
    if exclude_address setup
    then insert_tx_script setup.scaled s.script_transactions
    else insert_tx_addr setup.scaled s.address_transactions

unfoldable pub accept_transactions :
    Setup → (ℕ → ℕ → ℕ) → (Insertion → Bool) → List ChainBlock → Option (List Event)
unfolding accept_blocks insert_transaction_acceptances insert_txs address_calls send
accept_transactions setup time accepts blocks = do
  s ← accept_blocks setup time blocks nothing_yet
  acceptances ← insert_transaction_acceptances setup.scaled s.accepted_transactions
  of_acceptances ← send accepts acceptances
  calls ← insert_txs setup.scaled s.transactions true
  of_transactions ← send accepts calls
  calls' ← address_calls setup s
  of_addresses ← send accepts calls'
  some (of_acceptances ++ (of_transactions ++ of_addresses))

-- The rows of a chain block without transactions.
unfoldable pub add_chain_blocks : (ℕ → ℕ) → (Insertion → Bool) → List Bytes → Option (List Event)
unfolding chunks send
add_chain_blocks scaled accepts added_hashes = do
  parts ← chunks (chain_blocks_size scaled) added_hashes
  send accepts (
      map
        (λ part.
          into_transactions_acceptances
            (map (λ h. record { transaction_id = none; block_hash = some h }) part))
        parts)

-- The statements one behind the other, where the database accepts them, with the rows that stay and the number of those deleted.
unfoldable pub remove_parts :
    List (List Bytes) → List TransactionAcceptance → List TransactionAcceptance × ℕ
unfolding delete_transaction_acceptances
remove_parts [] rows = (rows, 0)
remove_parts (part ∷ parts) rows =
    let (rows', n) = delete_transaction_acceptances part rows in
    let (rows'', m) = remove_parts parts rows' in (rows'', n + m)

unfoldable pub remove_chain_blocks :
    (ℕ → ℕ) → List Bytes → List TransactionAcceptance → Option (List TransactionAcceptance × ℕ)
unfolding chunks remove_parts
remove_chain_blocks scaled removed_hashes rows = do
  parts ← chunks (chain_blocks_size scaled) removed_hashes
  some (remove_parts parts rows)
