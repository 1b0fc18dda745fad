-- ===== src/Processing/Transactions.antt =====
-- indexer/src/transactions/process_transactions.rs. A round is the transactions of a block, which the
-- queue gave; where there are none the loop only sleeps. The cache of transaction ids is moka's:
-- `contains_key now ids id` is its answer at a time when `ids` have been inserted, newest first.
pub mod Cover
pub mod RowSet
pub mod Pending
pub mod Inserted
pub mod Order
pub mod Waits
pub mod Tests
use simply_kaspa_indexer.Prelude.{
  ℕ, suc, ◌-◌, ◌*◌, Bool, true, false, not, ◌&&◌, ◌||◌, Option, none, some, List, [], ◌∷◌, ◌++◌,
  map, Bytes, ℤ, ltb, leb, length, is_empty, if◌then◌else◌, ◌>>=◌,
}
use simply_kaspa_indexer.Cli.{
  CliArgs, transactions_table, addresses_transactions_table, rejected_transactions,
  rejected_non_cb_transactions, CliField, is_disabled, is_excluded,
}
use simply_kaspa_indexer.Models.{
  Transaction, AddressTransaction, ScriptTransaction, address_transaction_eq, script_transaction_eq,
}
use simply_kaspa_indexer.Checkpoint.{CheckpointBlock, CheckpointOrigin, seconds_since}
use simply_kaspa_indexer.Mapping.Rpc.{RpcTransaction}
use simply_kaspa_indexer.Mapping.Mapper.{
  KaspaDbMapper, map_transaction, map_transaction_outputs_address, map_transaction_outputs_script,
  is_self_send_outputs_only,
}
use simply_kaspa_indexer.Database.Insert.{Insertion}
use simply_kaspa_indexer.Database.Batches.{insert_txs, insert_tx_addr, insert_tx_script}
use simply_kaspa_indexer.Processing.{
  Event, reported, MetricsBlock, metrics_block, update_last_block, last, send,
}

-- fetch_blocks.rs `TransactionData`.
pub record TransactionData : Type 0 where
  pub transactions : List RpcTransaction
  pub block_hash : Bytes
  pub block_timestamp : ℕ
  pub block_daa_score : ℕ
  pub block_blue_score : ℕ

pub record Setup : Type 0 where
  pub args : CliArgs
  pub mapper : KaspaDbMapper
  pub net_bps : ℕ
  pub scaled : ℕ → ℕ
  pub datable : ℤ → Bool
  pub contains_key : ℕ → List Bytes → Bytes → Bool

abbrev pub disable_transactions : Setup → Bool
disable_transactions setup = is_disabled setup.args transactions_table

abbrev pub disable_address_transactions : Setup → Bool
disable_address_transactions setup = is_disabled setup.args addresses_transactions_table

abbrev pub disable_rejected_transactions : Setup → Bool
disable_rejected_transactions setup = is_disabled setup.args rejected_transactions

abbrev pub disable_rejected_non_cb_transactions : Setup → Bool
disable_rejected_non_cb_transactions setup = is_disabled setup.args rejected_non_cb_transactions

abbrev pub exclude_address : Setup → Bool
exclude_address setup = is_excluded setup.args CliField.tx_out_script_public_key_address

abbrev pub exclude_script : Setup → Bool
exclude_script setup = is_excluded setup.args CliField.tx_out_script_public_key

-- The local variables, and `metrics.components.transaction_processor.last_block`. `cached` are the
-- ids inserted into the cache.
pub record State : Type 0 where
  pub transactions : List Transaction
  pub tx_address_transactions : List AddressTransaction
  pub tx_script_transactions : List ScriptTransaction
  pub checkpoint_blocks : List CheckpointBlock
  pub last_commit_time : ℕ
  pub cached : List Bytes
  pub last_block : Option MetricsBlock

-- One test of the loop that waits for the virtual chain: the last block of that processor, and
-- whether the program is told to stop during the sleep behind it.
pub record Poll : Type 0 where
  pub vcp_last_block : Option MetricsBlock
  pub shutdown : Bool

-- `lookup_time i` is the time at which the cache is asked for the `i`-th transaction.
pub record Round : Type 0 where
  pub transaction_data : TransactionData
  pub lookup_time : ℕ → ℕ
  pub check_time : ℕ
  pub polls : List Poll
  pub accepts : Insertion → Bool
  pub commit_time : ℕ

unfoldable pub init : ℕ → State
init now = record {
  transactions = [];
  tx_address_transactions = [];
  tx_script_transactions = [];
  checkpoint_blocks = [];
  last_commit_time = now;
  cached = [];
  last_block = none;
}

unfoldable pub checkpoint_of : TransactionData → CheckpointBlock
checkpoint_of d = record {
  origin = CheckpointOrigin.transactions;
  hash = d.block_hash;
  timestamp = d.block_timestamp;
  daa_score = d.block_daa_score;
  blue_score = d.block_blue_score;
}

-- `IndexSet`: a row that equals one of the set leaves it as it is.
unfoldable pub has : {A : Type 0} → (A → A → Bool) → A → List A → Bool
has eq a [] = false
has eq a (x ∷ xs) = eq x a || has eq a xs

unfoldable pub extend : {A : Type 0} → (A → A → Bool) → List A → List A → List A
unfolding has
extend eq set [] = set
extend eq set (a ∷ rows) = extend eq (if has eq a set then set else set ++ a ∷ []) rows

-- The rows of a transaction, for each of the tables; none where the options leave them out.
unfoldable pub transaction_rows : Setup → RpcTransaction → Option (List Transaction)
unfolding map_transaction
transaction_rows setup t =
    if disable_transactions setup
    then some []
    else (map_transaction setup.mapper t >>= λ row. some (row ∷ []))

unfoldable pub address_rows : Setup → RpcTransaction → Option (List AddressTransaction)
unfolding map_transaction_outputs_address
address_rows setup t =
    if disable_address_transactions setup
    then some []
    else if exclude_address setup
    then some []
    else map_transaction_outputs_address setup.mapper t

unfoldable pub script_rows : Setup → RpcTransaction → Option (List ScriptTransaction)
unfolding map_transaction_outputs_script
script_rows setup t =
    if disable_address_transactions setup
    then some []
    else if exclude_address setup
    then (if exclude_script setup then some [] else map_transaction_outputs_script setup.mapper t)
    else some []

-- Whether the options let the transaction in.
abbrev pub admits : Setup → RpcTransaction → Bool
admits setup t =
    not (disable_rejected_transactions setup)
    && (not (disable_rejected_non_cb_transactions setup) || t.subnetwork_id.is_builtin)

unfoldable pub add : Setup → RpcTransaction → Bytes → State → Option State
unfolding transaction_rows address_rows script_rows extend
add setup t id s = do
  rows ← transaction_rows setup t
  addresses ← address_rows setup t
  scripts ← script_rows setup t
  some (record s {
    transactions = s.transactions ++ rows;
    tx_address_transactions = extend address_transaction_eq s.tx_address_transactions addresses;
    tx_script_transactions = extend script_transaction_eq s.tx_script_transactions scripts;
    cached = id ∷ s.cached;
  })

-- A transaction that the options admit.
unfoldable pub admit : Setup → ℕ → RpcTransaction → State → Option State
unfolding add
admit setup now t s = t.verbose_data >>= λ v.
    if setup.contains_key now s.cached v.transaction_id
    then some s
    else add setup t v.transaction_id s

-- The body of the loop over the transactions of a block.
unfoldable pub take_in : Setup → ℕ → RpcTransaction → State → Option State
unfolding is_self_send_outputs_only admit
take_in setup now t s = is_self_send_outputs_only setup.mapper t >>= λ self_send.
    if self_send then some s else if admits setup t then admit setup now t s else some s

unfoldable pub take_all : Setup → (ℕ → ℕ) → ℕ → List RpcTransaction → State → Option State
unfolding take_in
take_all setup time i [] s = some s
take_all setup time i (t ∷ ts) s = do
  s' ← take_in setup (time i) t s
  take_all setup time (suc i) ts s'

unfoldable pub receive : Setup → Round → State → Option State
unfolding take_all checkpoint_of
receive setup r s =
    take_all setup r.lookup_time 0 r.transaction_data.transactions (record s {
      checkpoint_blocks = s.checkpoint_blocks ++ checkpoint_of r.transaction_data ∷ [];
    })

unfoldable pub is_due : Setup → ℕ → State → Bool
is_due setup now s =
    leb (setup.scaled 500) (length s.checkpoint_blocks)
    || (not (is_empty s.checkpoint_blocks) && ltb 1 (seconds_since now s.last_commit_time))

-- `saturating_sub` of the two scores, where the virtual chain has one.
unfoldable pub is_ahead : ℕ → ℕ → Option MetricsBlock → Bool
is_ahead net_bps daa_score none = false
is_ahead net_bps daa_score (some vcp) = leb (3 * net_bps) (vcp.daa_score - daa_score)

-- Whether the wait ends with the virtual chain far enough. If not, the processor has returned at a
-- shutdown, or still waits behind the last poll.
unfoldable pub wait_for_vcp : ℕ → ℕ → List Poll → Bool
unfolding is_ahead
wait_for_vcp net_bps daa_score [] = false
wait_for_vcp net_bps daa_score (p ∷ ps) =
    let later = wait_for_vcp net_bps daa_score ps in
    if is_ahead net_bps daa_score p.vcp_last_block
    then true
    else if p.shutdown
    then false
    else later

unfoldable pub address_calls : Setup → State → Option (List Insertion)
unfolding insert_tx_addr insert_tx_script
address_calls setup s =
    if exclude_address setup
    then insert_tx_script setup.scaled s.tx_script_transactions
    else insert_tx_addr setup.scaled s.tx_address_transactions

-- The two tasks run at the same time, and each sends its statements in any order; here they stand one
-- behind the other.
unfoldable pub insert_rows : Setup → (Insertion → Bool) → State → Option (List Event)
unfolding insert_txs address_calls send
insert_rows setup accepts s = do
  calls ← insert_txs setup.scaled s.transactions false
  of_transactions ← send accepts calls
  calls' ← address_calls setup s
  of_addresses ← send accepts calls'
  some (of_transactions ++ of_addresses)

abbrev pub emptied : State → State
emptied s = record s {
  transactions = [];
  tx_address_transactions = [];
  tx_script_transactions = [];
}

-- The part of a commit behind the insertions.
unfoldable pub finish : Setup → Round → CheckpointBlock → State → Option (State × List Event)
unfolding metrics_block update_last_block
finish setup r last_checkpoint s = do
  shown ← metrics_block setup.datable last_checkpoint
  some (
    record s {
      checkpoint_blocks = [];
      last_commit_time = r.commit_time;
      last_block = update_last_block shown s.last_block;
    },
    map reported s.checkpoint_blocks,
  )

-- A commit, and whether the loop goes on behind it.
unfoldable pub commit : Setup → Round → State → Option (Bool × State × List Event)
unfolding last wait_for_vcp insert_rows finish
commit setup r s = do
  last_checkpoint ← last s.checkpoint_blocks
  if disable_rejected_transactions setup
      then (do (s', reports) ← finish setup r last_checkpoint s; some (true, s', reports))
      else if wait_for_vcp setup.net_bps last_checkpoint.daa_score r.polls
      then (do
        events ← insert_rows setup r.accepts s
        (s', reports) ← finish setup r last_checkpoint (emptied s)
        some (true, s', events ++ reports))
      else some (false, s, [])

unfoldable pub step : Setup → Round → State → Option (Bool × State × List Event)
unfolding receive is_due commit
step setup r s = do
  s' ← receive setup r s
  if is_due setup r.check_time s' then commit setup r s' else some (true, s', [])

-- The loop over the blocks popped until shutdown.
unfoldable pub process_transactions : Setup → List Round → State → Option (State × List Event)
process_transactions setup [] s = some (s, [])
process_transactions setup (r ∷ rs) s = do
  (again, s', events) ← step setup r s
  let rest = process_transactions setup rs s'
  if again then (rest >>= λ end. some (end.0, events ++ end.1)) else some (s', events)
