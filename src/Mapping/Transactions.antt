-- ===== src/Mapping/Transactions.antt =====
-- mapping/src/transactions.rs, for the transactions of a block. The `include_*` arguments are the
-- fields of a record; `none` is the panic of `unwrap` or `expect` on a missing value.
pub mod Subnetwork
use simply_kaspa_indexer.Prelude.{
  ℕ, suc, ◌+◌, Bool, not, ◌&&◌, Option, none, some, List, [], ◌∷◌, map, Bytes, as_i16, as_i32,
  as_i64, if◌then◌else◌, ◌==◌, ◌>>=◌, is_empty, then_some, then_try, take,
}
use simply_kaspa_indexer.Models.{
  Transaction, TransactionInput, TransactionOutput, AddressTransaction, ScriptTransaction,
}
use simply_kaspa_indexer.Mapping.Rpc.{
  RpcTransactionInput, RpcCovenant, RpcTransactionOutput, RpcTransaction,
}

pub record TransactionIncludes : Type 0 where
  pub subnetwork_id : Bool
  pub hash : Bool
  pub mass : Bool
  pub payload : Bool
  pub block_time : Bool
  pub block_hash : Bool
  pub inputs : Bool
  pub in_previous_outpoint : Bool
  pub in_signature_script : Bool
  pub in_sig_op_count : Bool
  pub in_compute_budget : Bool
  pub in_covenant_id : Bool
  pub outputs : Bool
  pub out_amount : Bool
  pub out_script_public_key : Bool
  pub out_script_public_key_address : Bool
  pub out_covenant_authorizing_input : Bool
  pub out_covenant_id : Bool

-- The place of the last byte that is not 0.
unfoldable pub rposition : Bytes → Option ℕ
rposition [] = none
rposition (b ∷ bs) = elim (rposition bs) [
  | some i ↦ some (suc i)
  | none ↦ if b == 0 then none else some 0
]

unfoldable pub compress_subnetwork_id : Bytes → Option Bytes
unfolding rposition
compress_subnetwork_id bytes = elim (rposition bytes) [
  | none ↦ none
  | some i ↦ some (take (suc i) bytes)
]

-- `iter().enumerate().map(f).collect()` for an `f` that may panic.
unfoldable pub try_map_from {ℓ κ} :
    {A : Type ℓ} {B : Type κ} → (ℕ → A → Option B) → ℕ → List A → Option (List B)
try_map_from f i [] = some []
try_map_from f i (x ∷ xs) = f i x >>= λ y. try_map_from f (i + 1) xs >>= λ ys. some (y ∷ ys)

-- `(!xs.is_empty()).then(|| ...)`.
abbrev pub unless_empty {ℓ κ} : {A : Type ℓ} {B : Type κ} → List A → Option B → Option (Option B)
unless_empty xs m = then_try (not (is_empty xs)) m

unfoldable pub map_input : TransactionIncludes → ℕ → RpcTransactionInput → TransactionInput
map_input include i input = record {
  index = as_i16 i;
  previous_outpoint_hash =
      then_some include.in_previous_outpoint input.previous_outpoint.transaction_id;
  previous_outpoint_index =
      then_some include.in_previous_outpoint (as_i16 input.previous_outpoint.index);
  signature_script = then_some include.in_signature_script input.signature_script;
  sig_op_count =
      then_some (include.in_sig_op_count && not (input.sig_op_count == 0))
        (as_i16 input.sig_op_count);
  previous_outpoint_script = none;
  previous_outpoint_amount = none;
  compute_budget =
      then_some (include.in_compute_budget && not (input.compute_budget == 0))
        (as_i16 input.compute_budget);
  covenant_id = none;
}

unfoldable pub map_transaction_inputs :
    RpcTransaction → TransactionIncludes → Option (Option (List TransactionInput))
unfolding try_map_from map_input
map_transaction_inputs t include =
    unless_empty t.inputs (try_map_from (λ i x. some (map_input include i x)) 0 t.inputs)

-- `include.then(|| covenant.map(f)).flatten()`.
abbrev pub covenant_field {ℓ} :
    {A : Type ℓ} → Bool → (RpcCovenant → A) → Option RpcCovenant → Option A
covenant_field b f none = none
covenant_field b f (some c) = then_some b (f c)

abbrev pub output_row :
    TransactionIncludes → ℕ → ℕ → Bytes → Option RpcCovenant → Option Bytes → TransactionOutput
output_row include i value script covenant address = record {
  index = as_i16 i;
  amount = then_some include.out_amount (as_i64 value);
  script_public_key = then_some include.out_script_public_key script;
  script_public_key_address = address;
  covenant_authorizing_input =
      covenant_field include.out_covenant_authorizing_input (λ c. as_i16 c.authorizing_input)
        covenant;
  covenant_id = covenant_field include.out_covenant_id (λ c. c.covenant_id) covenant;
}

unfoldable pub map_output :
    TransactionIncludes → ℕ → RpcTransactionOutput → Option TransactionOutput
map_output include i o =
    then_try include.out_script_public_key_address (o.address >>= λ a. some a.payload_to_string)
    >>= λ address. some (output_row include i o.value o.script_public_key o.covenant address)

unfoldable pub map_transaction_outputs :
    RpcTransaction → TransactionIncludes → Option (Option (List TransactionOutput))
unfolding try_map_from map_output
map_transaction_outputs t include =
    unless_empty t.outputs (try_map_from (map_output include) 0 t.outputs)

-- `include.then(|| m).flatten()` for an `m` that may panic.
abbrev pub when_included {ℓ} : {A : Type ℓ} → Bool → Option (Option A) → Option (Option A)
when_included b m = if b then m else some none

unfoldable pub map_transaction : RpcTransaction → TransactionIncludes → Option Transaction
unfolding compress_subnetwork_id map_transaction_inputs map_transaction_outputs
map_transaction t include = t.verbose_data >>= λ v.
    when_included include.inputs (map_transaction_inputs t include) >>= λ inputs.
    when_included include.outputs (map_transaction_outputs t include) >>= λ outputs. some (record {
      transaction_id = v.transaction_id;
      subnetwork_id =
          if include.subnetwork_id then compress_subnetwork_id t.subnetwork_id.bytes else none;
      hash = then_some include.hash v.hash;
      mass = then_some (include.mass && not (v.compute_mass == 0)) (as_i32 v.compute_mass);
      payload = then_some (include.payload && not (is_empty t.payload)) t.payload;
      block_time = then_some include.block_time (as_i64 v.block_time);
      version = then_some (not (t.version == 0)) (as_i16 t.version);
      inputs = inputs;
      outputs = outputs;
      block_hash = then_some include.block_hash v.block_hash;
    })

unfoldable pub map_transaction_outputs_address : RpcTransaction → Option (List AddressTransaction)
unfolding try_map_from
map_transaction_outputs_address t = t.verbose_data >>= λ v.
    try_map_from
      (λ i o. o.address >>= λ a. some (record {
        address = a.payload_to_string;
        transaction_id = v.transaction_id;
        block_time = as_i64 v.block_time;
      }))
      0 t.outputs

unfoldable pub map_transaction_outputs_script : RpcTransaction → Option (List ScriptTransaction)
map_transaction_outputs_script t = t.verbose_data >>= λ v. some (
    map
      (λ o. record {
        script_public_key = o.script_public_key;
        transaction_id = v.transaction_id;
        block_time = as_i64 v.block_time;
      })
      t.outputs)
