-- ===== src/Mapping/Mapper.antt =====
-- mapping/src/mapper.rs: `KaspaDbMapper`, which fixes from the options what the rows hold, and the
-- tests for transactions within one group of addresses.
pub mod SelfSend
pub mod Columns
use simply_kaspa_indexer.Prelude.{
  ℕ, Bool, true, false, not, ◌&&◌, ◌||◌, Option, none, some, List, [], ◌∷◌, ◌++◌, map, Bytes, ◌==◌,
  ◌>>=◌, if◌then◌else◌, is_empty,
}
use simply_kaspa_indexer.Cli.{
  CliArgs, CliField, CliDisable, transactions_inputs, transactions_outputs, is_disabled,
  is_excluded, contains,
}
use simply_kaspa_indexer.Models.{
  AddressTransaction, ScriptTransaction, Block, BlockParent, Transaction, Bytes-discrete,
}
use simply_kaspa_indexer.Mapping.Rpc.{
  RpcAddress, RpcBlock, RpcTransaction, RpcTransactionOutput, RpcOptionalTransaction,
  RpcOptionalTransactionOutput, RpcOptionalTransactionInput, RpcOptionalUtxoEntry, RpcSubnetworkId,
}
use simply_kaspa_indexer.Mapping.Blocks.{BlockIncludes}
use simply_kaspa_indexer.Mapping.Blocks
use simply_kaspa_indexer.Mapping.Transactions.{TransactionIncludes, try_map_from}
use simply_kaspa_indexer.Mapping.Transactions
use simply_kaspa_indexer.Mapping.Optional
use simply_kaspa_indexer.Mapping.Optional.{unwrap_both}

pub record KaspaDbMapper : Type 0 where
  pub block_accepted_id_merkle_root : Bool
  pub block_transaction_ids : Bool
  pub block_merge_set_blues_hashes : Bool
  pub block_merge_set_reds_hashes : Bool
  pub block_selected_parent_hash : Bool
  pub block_bits : Bool
  pub block_blue_work : Bool
  pub block_blue_score : Bool
  pub block_daa_score : Bool
  pub block_hash_merkle_root : Bool
  pub block_nonce : Bool
  pub block_pruning_point : Bool
  pub block_timestamp : Bool
  pub block_utxo_commitment : Bool
  pub block_version : Bool
  pub tx_subnetwork_id : Bool
  pub tx_hash : Bool
  pub tx_mass : Bool
  pub tx_payload : Bool
  pub tx_block_time : Bool
  pub tx_block_hash : Bool
  pub tx_in : Bool
  pub tx_in_previous_outpoint : Bool
  pub tx_in_signature_script : Bool
  pub tx_in_sig_op_count : Bool
  pub tx_in_compute_budget : Bool
  pub tx_in_covenant_id : Bool
  pub tx_out : Bool
  pub tx_out_amount : Bool
  pub tx_out_script_public_key : Bool
  pub tx_out_script_public_key_address : Bool
  pub tx_out_covenant_authorizing_input : Bool
  pub tx_out_covenant_id : Bool
  pub ignore_self_sends_groups : List (List Bytes)

add_first : ℕ → List Bytes → List Bytes
add_first c [] = (c ∷ []) ∷ []
add_first c (p ∷ ps) = (c ∷ p) ∷ ps

-- `str::split` at commas: the pieces between them.
unfoldable pub split_commas : Bytes → List Bytes
unfolding add_first
split_commas [] = [] ∷ []
split_commas (c ∷ cs) =
    let pieces = split_commas cs in if c == b',' then [] ∷ pieces else add_first c pieces

drop_empty {ℓ} : {A : Type ℓ} → List (List A) → List (List A)
drop_empty [] = []
drop_empty (x ∷ xs) = if is_empty x then drop_empty xs else x ∷ drop_empty xs

-- `unwrap_or_default`.
abbrev or_empty {ℓ} : {A : Type ℓ} → Option (List A) → List A
or_empty none = []
or_empty (some xs) = xs

unfoldable pub new : CliArgs → KaspaDbMapper
unfolding is_excluded is_disabled split_commas drop_empty
new args = record {
  block_accepted_id_merkle_root = not (is_excluded args CliField.block_accepted_id_merkle_root);
  block_transaction_ids = not (is_excluded args CliField.block_transaction_ids);
  block_merge_set_blues_hashes = not (is_excluded args CliField.block_merge_set_blues_hashes);
  block_merge_set_reds_hashes = not (is_excluded args CliField.block_merge_set_reds_hashes);
  block_selected_parent_hash = not (is_excluded args CliField.block_selected_parent_hash);
  block_bits = not (is_excluded args CliField.block_bits);
  block_blue_work = not (is_excluded args CliField.block_blue_work);
  block_blue_score = not (is_excluded args CliField.block_blue_score);
  block_daa_score = not (is_excluded args CliField.block_daa_score);
  block_hash_merkle_root = not (is_excluded args CliField.block_hash_merkle_root);
  block_nonce = not (is_excluded args CliField.block_nonce);
  block_pruning_point = not (is_excluded args CliField.block_pruning_point);
  block_timestamp = not (is_excluded args CliField.block_timestamp);
  block_utxo_commitment = not (is_excluded args CliField.block_utxo_commitment);
  block_version = not (is_excluded args CliField.block_version);
  tx_subnetwork_id = not (is_excluded args CliField.tx_subnetwork_id);
  tx_hash = not (is_excluded args CliField.tx_hash);
  tx_mass = not (is_excluded args CliField.tx_mass);
  tx_payload = not (is_excluded args CliField.tx_payload);
  tx_block_time = not (is_excluded args CliField.tx_block_time);
  tx_block_hash = not (is_excluded args CliField.tx_block_hash);
  tx_in = not (is_disabled args transactions_inputs);
  tx_in_previous_outpoint = not (is_excluded args CliField.tx_in_previous_outpoint);
  tx_in_signature_script = not (is_excluded args CliField.tx_in_signature_script);
  tx_in_sig_op_count = not (is_excluded args CliField.tx_in_sig_op_count);
  tx_in_compute_budget = not (is_excluded args CliField.tx_in_compute_budget);
  tx_in_covenant_id = not (is_excluded args CliField.tx_in_covenant_id);
  tx_out = not (is_disabled args transactions_outputs);
  tx_out_amount = not (is_excluded args CliField.tx_out_amount);
  tx_out_script_public_key = not (is_excluded args CliField.tx_out_script_public_key);
  tx_out_script_public_key_address =
      not (is_excluded args CliField.tx_out_script_public_key_address);
  tx_out_covenant_authorizing_input =
      not (is_excluded args CliField.tx_out_covenant_authorizing_input);
  tx_out_covenant_id = not (is_excluded args CliField.tx_out_covenant_id);
  ignore_self_sends_groups =
      drop_empty (map (λ s. drop_empty (split_commas s)) (or_empty args.ignore_self_sends));
}

-- The arguments that the methods pass on.
unfoldable pub block_includes : KaspaDbMapper → BlockIncludes
block_includes m = record {
  accepted_id_merkle_root = m.block_accepted_id_merkle_root;
  transaction_ids = m.block_transaction_ids;
  merge_set_blues_hashes = m.block_merge_set_blues_hashes;
  merge_set_reds_hashes = m.block_merge_set_reds_hashes;
  selected_parent_hash = m.block_selected_parent_hash;
  bits = m.block_bits;
  blue_work = m.block_blue_work;
  blue_score = m.block_blue_score;
  daa_score = m.block_daa_score;
  hash_merkle_root = m.block_hash_merkle_root;
  nonce = m.block_nonce;
  pruning_point = m.block_pruning_point;
  timestamp = m.block_timestamp;
  utxo_commitment = m.block_utxo_commitment;
  version = m.block_version;
}

unfoldable pub transaction_includes : KaspaDbMapper → TransactionIncludes
transaction_includes m = record {
  subnetwork_id = m.tx_subnetwork_id;
  hash = m.tx_hash;
  mass = m.tx_mass;
  payload = m.tx_payload;
  block_time = m.tx_block_time;
  block_hash = m.tx_block_hash;
  inputs = m.tx_in;
  in_previous_outpoint = m.tx_in_previous_outpoint;
  in_signature_script = m.tx_in_signature_script;
  in_sig_op_count = m.tx_in_sig_op_count;
  in_compute_budget = m.tx_in_compute_budget;
  in_covenant_id = m.tx_in_covenant_id;
  outputs = m.tx_out;
  out_amount = m.tx_out_amount;
  out_script_public_key = m.tx_out_script_public_key;
  out_script_public_key_address = m.tx_out_script_public_key_address;
  out_covenant_authorizing_input = m.tx_out_covenant_authorizing_input;
  out_covenant_id = m.tx_out_covenant_id;
}

unfoldable pub map_block : KaspaDbMapper → RpcBlock → Option Block
unfolding block_includes Blocks.map_block
map_block m block = Blocks.map_block block (block_includes m)

unfoldable pub map_transaction : KaspaDbMapper → RpcTransaction → Option Transaction
unfolding transaction_includes Transactions.map_transaction
map_transaction m t = Transactions.map_transaction t (transaction_includes m)

unfoldable pub map_optional_transaction :
    KaspaDbMapper → RpcOptionalTransaction → Option Transaction
unfolding transaction_includes Optional.map_optional_transaction
map_optional_transaction m t = Optional.map_optional_transaction t (transaction_includes m)

-- The methods that only pass their argument on.
unfoldable pub map_block_parents : KaspaDbMapper → RpcBlock → List BlockParent
unfolding Blocks.map_block_parents
map_block_parents m block = Blocks.map_block_parents block

unfoldable pub map_transaction_outputs_address :
    KaspaDbMapper → RpcTransaction → Option (List AddressTransaction)
unfolding Transactions.map_transaction_outputs_address
map_transaction_outputs_address m t = Transactions.map_transaction_outputs_address t

unfoldable pub map_transaction_outputs_script :
    KaspaDbMapper → RpcTransaction → Option (List ScriptTransaction)
unfolding Transactions.map_transaction_outputs_script
map_transaction_outputs_script m t = Transactions.map_transaction_outputs_script t

unfoldable pub map_optional_transaction_inputs_address :
    KaspaDbMapper → RpcOptionalTransaction → Option (List AddressTransaction)
unfolding Optional.map_optional_transaction_inputs_address
map_optional_transaction_inputs_address m t = Optional.map_optional_transaction_inputs_address t

unfoldable pub map_optional_transaction_outputs_address :
    KaspaDbMapper → RpcOptionalTransaction → Option (List AddressTransaction)
unfolding Optional.map_optional_transaction_outputs_address
map_optional_transaction_outputs_address m t = Optional.map_optional_transaction_outputs_address t

unfoldable pub map_optional_transaction_inputs_script :
    KaspaDbMapper → RpcOptionalTransaction → Option (List ScriptTransaction)
unfolding Optional.map_optional_transaction_inputs_script
map_optional_transaction_inputs_script m t = Optional.map_optional_transaction_inputs_script t

unfoldable pub map_optional_transaction_outputs_script :
    KaspaDbMapper → RpcOptionalTransaction → Option (List ScriptTransaction)
unfolding Optional.map_optional_transaction_outputs_script
map_optional_transaction_outputs_script m t = Optional.map_optional_transaction_outputs_script t

-- Whether one of the groups holds all of the addresses.
all_in : List Bytes → List Bytes → Bool
all_in group [] = true
all_in group (a ∷ addrs) = contains Bytes-discrete a group && all_in group addrs

unfoldable pub some_group_holds : List (List Bytes) → List Bytes → Bool
unfolding all_in contains
some_group_holds [] addrs = false
some_group_holds (group ∷ groups) addrs = all_in group addrs || some_group_holds groups addrs

unfoldable pub is_self_send_outputs_only : KaspaDbMapper → RpcTransaction → Option Bool
unfolding try_map_from some_group_holds
is_self_send_outputs_only m t =
    if is_empty m.ignore_self_sends_groups || is_empty t.outputs
    then some false
    else (if t.subnetwork_id.is_builtin
        then some false
        else (try_map_from (λ i o. o.address >>= λ a. some a.address_to_string) 0 t.outputs
            >>= λ output_addrs. some (some_group_holds m.ignore_self_sends_groups output_addrs)))

unfoldable pub is_self_send_full : KaspaDbMapper → RpcOptionalTransaction → Option Bool
unfolding try_map_from some_group_holds
is_self_send_full m t =
    if is_empty m.ignore_self_sends_groups || is_empty t.outputs
    then some false
    else (t.subnetwork_id >>= λ id.
        if id.is_builtin
        then some false
        else (try_map_from (λ i o. unwrap_both o.address >>= λ a. some a.address_to_string) 0
              t.outputs
            >>= λ output_addrs.
                try_map_from
                  (λ i input. unwrap_both input.utxo_entry >>= λ utxo.
                    unwrap_both utxo.address >>= λ a. some a.address_to_string)
                  0 t.inputs
                >>= λ input_addrs.
                    some
                      (some_group_holds m.ignore_self_sends_groups (output_addrs ++ input_addrs))))
