-- ===== src/Mapping/Optional.antt =====
-- mapping/src/transactions.rs, for the accepted transactions of the virtual chain, whose fields may
-- all be missing. `then_some` evaluates its argument, so its `unwrap` panics even where the field
-- is excluded; the closure of `then` runs only where it is included.
pub mod Lift
use simply_kaspa_indexer.Prelude.{
  ℕ, Bool, false, not, ◌&&◌, Option, none, some, List, Bytes, ℤ, as_i16, as_i32, as_i64,
  if◌then◌else◌, ◌==◌, ◌>>=◌, is_empty, then_some, then_try,
}
use simply_kaspa_indexer.Models.{
  Transaction, TransactionInput, TransactionOutput, AddressTransaction, ScriptTransaction,
}
use simply_kaspa_indexer.Mapping.Rpc.{
  RpcAddress, RpcOptionalTransactionInput, RpcOptionalTransactionOutput, RpcOptionalTransaction,
}
use simply_kaspa_indexer.Mapping.Transactions.{
  TransactionIncludes, compress_subnetwork_id, try_map_from, unless_empty, covenant_field,
  when_included,
}

-- An option of an option, both of which the code unwraps.
abbrev pub unwrap_both {ℓ} : {A : Type ℓ} → Option (Option A) → Option A
unwrap_both none = none
unwrap_both (some m) = m

-- `input.sig_op_count != Some(0)`.
abbrev is_some_zero : Option ℕ → Bool
is_some_zero none = false
is_some_zero (some n) = n == 0

unfoldable pub map_optional_input :
    TransactionIncludes → ℕ → RpcOptionalTransactionInput → Option TransactionInput
map_optional_input include i input = unwrap_both input.utxo_entry >>= λ utxo.
    input.previous_outpoint >>= λ outpoint.
    then_try include.in_previous_outpoint outpoint.transaction_id >>= λ previous_outpoint_hash.
    then_try include.in_previous_outpoint (outpoint.index >>= λ n. some (as_i16 n))
    >>= λ previous_outpoint_index.
        then_try include.in_signature_script input.signature_script >>= λ signature_script.
        then_try (include.in_sig_op_count && not (is_some_zero input.sig_op_count))
          (input.sig_op_count >>= λ n. some (as_i16 n))
        >>= λ sig_op_count.
            then_try include.in_previous_outpoint utxo.script_public_key
            >>= λ previous_outpoint_script.
                then_try include.in_previous_outpoint (utxo.amount >>= λ n. some (as_i64 n))
                >>= λ previous_outpoint_amount.
                    then_try (include.in_compute_budget && not (is_some_zero input.compute_budget))
                      (input.compute_budget >>= λ n. some (as_i16 n))
                    >>= λ compute_budget. some (record {
                      index = as_i16 i;
                      previous_outpoint_hash = previous_outpoint_hash;
                      previous_outpoint_index = previous_outpoint_index;
                      signature_script = signature_script;
                      sig_op_count = sig_op_count;
                      previous_outpoint_script = previous_outpoint_script;
                      previous_outpoint_amount = previous_outpoint_amount;
                      compute_budget = compute_budget;
                      covenant_id = if include.in_covenant_id then utxo.covenant_id else none;
                    })

unfoldable pub map_optional_transaction_inputs :
    RpcOptionalTransaction → TransactionIncludes → Option (Option (List TransactionInput))
unfolding try_map_from map_optional_input
map_optional_transaction_inputs t include =
    unless_empty t.inputs (try_map_from (map_optional_input include) 0 t.inputs)

unfoldable pub map_optional_output :
    TransactionIncludes → ℕ → RpcOptionalTransactionOutput → Option TransactionOutput
map_optional_output include i o = then_try include.out_amount o.value >>= λ value.
    then_try include.out_script_public_key o.script_public_key >>= λ script.
    then_try include.out_script_public_key_address
      (unwrap_both o.address >>= λ a. some a.payload_to_string)
    >>= λ address.
        let covenant = unwrap_both o.covenant in
        some (record {
          index = as_i16 i;
          amount = value >>= λ n. some (as_i64 n);
          script_public_key = script;
          script_public_key_address = address;
          covenant_authorizing_input =
              covenant_field include.out_covenant_authorizing_input
                (λ c. as_i16 c.authorizing_input) covenant;
          covenant_id = covenant_field include.out_covenant_id (λ c. c.covenant_id) covenant;
        })

unfoldable pub map_optional_transaction_outputs :
    RpcOptionalTransaction → TransactionIncludes → Option (Option (List TransactionOutput))
unfolding try_map_from map_optional_output
map_optional_transaction_outputs t include =
    unless_empty t.outputs (try_map_from (map_optional_output include) 0 t.outputs)

unfoldable pub map_optional_transaction :
    RpcOptionalTransaction → TransactionIncludes → Option Transaction
unfolding compress_subnetwork_id map_optional_transaction_inputs map_optional_transaction_outputs
map_optional_transaction t include = t.verbose_data >>= λ v. v.transaction_id >>= λ transaction_id.
    when_included include.subnetwork_id
      (t.subnetwork_id >>= λ id. some (compress_subnetwork_id id.bytes))
    >>= λ subnetwork_id. v.hash >>= λ hash. v.compute_mass >>= λ compute_mass.
        t.payload >>= λ payload. v.block_time >>= λ block_time. v.block_hash >>= λ block_hash.
        when_included include.inputs (map_optional_transaction_inputs t include) >>= λ inputs.
        when_included include.outputs (map_optional_transaction_outputs t include) >>= λ outputs.
        some (record {
          transaction_id = transaction_id;
          subnetwork_id = subnetwork_id;
          hash = then_some include.hash hash;
          mass = then_some (include.mass && not (compute_mass == 0)) (as_i32 compute_mass);
          payload = then_some (include.payload && not (is_empty payload)) payload;
          block_time = then_some include.block_time (as_i64 block_time);
          version = t.version >>= λ n. then_some (not (n == 0)) (as_i16 n);
          inputs = inputs;
          outputs = outputs;
          block_hash = then_some include.block_hash block_hash;
        })

-- The transaction's id and time, which the four functions below unwrap first.
abbrev id_and_time : RpcOptionalTransaction → Option (Bytes × ℤ)
id_and_time t = t.verbose_data >>= λ v.
    v.transaction_id >>= λ id. v.block_time >>= λ time. some (id, as_i64 time)

abbrev address_row : Bytes × ℤ → RpcAddress → AddressTransaction
address_row (id, time) a = record {
  address = a.payload_to_string;
  transaction_id = id;
  block_time = time;
}

abbrev script_row : Bytes × ℤ → Bytes → ScriptTransaction
script_row (id, time) s = record { script_public_key = s; transaction_id = id; block_time = time }

unfoldable pub map_optional_transaction_inputs_address :
    RpcOptionalTransaction → Option (List AddressTransaction)
unfolding try_map_from
map_optional_transaction_inputs_address t = id_and_time t >>= λ k.
    try_map_from
      (λ i input. unwrap_both input.utxo_entry >>= λ utxo.
        unwrap_both utxo.address >>= λ a. some (address_row k a))
      0 t.inputs

unfoldable pub map_optional_transaction_inputs_script :
    RpcOptionalTransaction → Option (List ScriptTransaction)
unfolding try_map_from
map_optional_transaction_inputs_script t = id_and_time t >>= λ k.
    try_map_from
      (λ i input. unwrap_both input.utxo_entry >>= λ utxo.
        utxo.script_public_key >>= λ s. some (script_row k s))
      0 t.inputs

unfoldable pub map_optional_transaction_outputs_address :
    RpcOptionalTransaction → Option (List AddressTransaction)
unfolding try_map_from
map_optional_transaction_outputs_address t = id_and_time t >>= λ k.
    try_map_from (λ i o. unwrap_both o.address >>= λ a. some (address_row k a)) 0 t.outputs

unfoldable pub map_optional_transaction_outputs_script :
    RpcOptionalTransaction → Option (List ScriptTransaction)
unfolding try_map_from
map_optional_transaction_outputs_script t = id_and_time t >>= λ k.
    try_map_from (λ i o. o.script_public_key >>= λ s. some (script_row k s)) 0 t.outputs
