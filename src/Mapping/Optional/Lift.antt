-- ===== src/Mapping/Optional/Lift.antt =====
-- A transaction with every optional field there, and what the two families of mapping functions make
-- of the same transaction.
use simply_kaspa_indexer.Prelude.{
  ℕ, ◌+◌, ◌≡◌, refl, Option, none, some, List, [], ◌∷◌, map, Bytes, arith, as_i64, if◌then◌else◌,
  ◌>>=◌, is_empty, then_some,
}
use simply_kaspa_indexer.Models.{TransactionInput}
use simply_kaspa_indexer.Mapping.Rpc.{
  RpcAddress, RpcTransactionInput, RpcOptionalTransactionInput, RpcTransactionOutput,
  RpcOptionalTransactionOutput, RpcTransactionVerboseData, RpcOptionalTransactionVerboseData,
  RpcTransaction, RpcOptionalTransaction,
}
use simply_kaspa_indexer.Mapping.Transactions.{
  TransactionIncludes, try_map_from, map_input, map_transaction_inputs, map_output,
  map_transaction_outputs, map_transaction,
}
use simply_kaspa_indexer.Mapping.Optional.{
  map_optional_input, map_optional_transaction_inputs, map_optional_output,
  map_optional_transaction_outputs, map_optional_transaction,
}

-- The output that an input spends.
pub record Utxo : Type 0 where
  pub amount : ℕ
  pub script : Bytes
  pub covenant_id : Option Bytes
  pub address : RpcAddress

-- An optional value as one that is there, with the value itself.
abbrev pub there {ℓ} : {A : Type ℓ} → Option A → Option (Option A)
there none = none
there (some a) = some (some a)

module _ (utxo : RpcTransactionInput → Utxo) where
  abbrev pub lift_input : RpcTransactionInput → RpcOptionalTransactionInput
  lift_input x = record {
    previous_outpoint = some (record {
      transaction_id = some x.previous_outpoint.transaction_id;
      index = some x.previous_outpoint.index;
    });
    signature_script = some x.signature_script;
    sig_op_count = some x.sig_op_count;
    compute_budget = some x.compute_budget;
    utxo_entry = some (
        some (record {
          amount = some (utxo x).amount;
          script_public_key = some (utxo x).script;
          covenant_id = (utxo x).covenant_id;
          address = some (some (utxo x).address);
        }));
  }

abbrev pub lift_output : RpcTransactionOutput → RpcOptionalTransactionOutput
lift_output o = record {
  value = some o.value;
  script_public_key = some o.script_public_key;
  address = there o.address;
  covenant = there o.covenant;
}

abbrev pub lift_verbose :
    Option RpcTransactionVerboseData → Option RpcOptionalTransactionVerboseData
lift_verbose none = none
lift_verbose (some v) = some (record {
  transaction_id = some v.transaction_id;
  hash = some v.hash;
  compute_mass = some v.compute_mass;
  block_hash = some v.block_hash;
  block_time = some v.block_time;
})

abbrev pub lift : (RpcTransactionInput → Utxo) → RpcTransaction → RpcOptionalTransaction
lift utxo t = record {
  version = some t.version;
  inputs = map (lift_input utxo) t.inputs;
  outputs = map lift_output t.outputs;
  subnetwork_id = some t.subnetwork_id;
  payload = some t.payload;
  verbose_data = lift_verbose t.verbose_data;
}

-- The row of an input with what it spends.
abbrev pub resolved :
    TransactionIncludes → (RpcTransactionInput → Utxo) → ℕ → RpcTransactionInput → TransactionInput
resolved include utxo i x = record (map_input include i x) {
  previous_outpoint_script = then_some include.in_previous_outpoint (utxo x).script;
  previous_outpoint_amount = then_some include.in_previous_outpoint (as_i64 (utxo x).amount);
  covenant_id = if include.in_covenant_id then (utxo x).covenant_id else none;
}

abbrev pub map_from {ℓ κ} : {A : Type ℓ} {B : Type κ} → (ℕ → A → B) → ℕ → List A → List B
map_from f i [] = []
map_from f i (x ∷ xs) = f i x ∷ map_from f (i + 1) xs

output-lift :
    (include : TransactionIncludes) (i : ℕ) (o : RpcTransactionOutput)
    → map_optional_output include i (lift_output o) ≡ map_output include i o
unfolding map_optional_output map_output
output-lift include i o = ground arith

input-lift :
    (include : TransactionIncludes) (utxo : RpcTransactionInput → Utxo) (i : ℕ)
    (x : RpcTransactionInput)
    → map_optional_input include i (lift_input utxo x) ≡ some (resolved include utxo i x)
unfolding map_optional_input map_input
input-lift include utxo i x = ground arith

outputs-lift :
    (include : TransactionIncludes) (i : ℕ) (xs : List RpcTransactionOutput)
    → try_map_from (map_optional_output include) i (map lift_output xs)
      ≡ try_map_from (map_output include) i xs
unfolding try_map_from
outputs-lift include i [] = refl
outputs-lift include i (x ∷ xs) = rw (output-lift include i x, outputs-lift include (i + 1) xs)

inputs-lift :
    (include : TransactionIncludes) (utxo : RpcTransactionInput → Utxo) (i : ℕ)
    (xs : List RpcTransactionInput)
    → try_map_from (map_optional_input include) i (map (lift_input utxo) xs)
      ≡ some (map_from (resolved include utxo) i xs)
unfolding try_map_from
inputs-lift include utxo i [] = refl
inputs-lift include utxo i (x ∷ xs) =
    rw (input-lift include utxo i x, inputs-lift include utxo (i + 1) xs)

try_map_from-some {ℓ κ} :
    {A : Type ℓ} {B : Type κ} (f : ℕ → A → B) (i : ℕ) (xs : List A)
    → try_map_from (λ i x. some (f i x)) i xs ≡ some (map_from f i xs)
unfolding try_map_from
try_map_from-some f i [] = refl
try_map_from-some f i (x ∷ xs) = rw (try_map_from-some f (i + 1) xs)

is_empty-map {ℓ κ} :
    {A : Type ℓ} {B : Type κ} (f : A → B) (xs : List A) → is_empty (map f xs) ≡ is_empty xs
is_empty-map f [] = refl
is_empty-map f (x ∷ xs) = refl

pub transaction_outputs-lift :
    (include : TransactionIncludes) (utxo : RpcTransactionInput → Utxo) (t : RpcTransaction)
    → map_optional_transaction_outputs (lift utxo t) include ≡ map_transaction_outputs t include
unfolding map_optional_transaction_outputs map_transaction_outputs
transaction_outputs-lift include utxo t =
    rw (is_empty-map lift_output t.outputs, outputs-lift include 0 t.outputs)

pub transaction_inputs-lift :
    (include : TransactionIncludes) (utxo : RpcTransactionInput → Utxo) (t : RpcTransaction)
    → map_optional_transaction_inputs (lift utxo t) include
      ≡ some
          (if is_empty t.inputs then none else some (map_from (resolved include utxo) 0 t.inputs))
unfolding map_optional_transaction_inputs
transaction_inputs-lift include utxo t =
    rw (is_empty-map (lift_input utxo) t.inputs, inputs-lift include utxo 0 t.inputs) (ground arith)

pub plain_inputs :
    (include : TransactionIncludes) (t : RpcTransaction)
    → map_transaction_inputs t include
      ≡ some (if is_empty t.inputs then none else some (map_from (map_input include) 0 t.inputs))
unfolding map_transaction_inputs
plain_inputs include t = rw (try_map_from-some (map_input include) 0 t.inputs) (ground arith)

-- The row that the virtual chain makes of a transaction with nothing missing is the row that its
-- block makes of it, field by field, but for what its inputs spend: the spent script, amount and
-- covenant, which only the virtual chain knows. Where the block's mapping panics, so does the
-- virtual chain's.
pub map_optional_transaction-lift :
    (include : TransactionIncludes) (utxo : RpcTransactionInput → Utxo) (t : RpcTransaction)
    → map_optional_transaction (lift utxo t) include ≡ (
        map_transaction t include >>= λ row. some (record row {
          inputs = row.inputs >>= λ _. some (map_from (resolved include utxo) 0 t.inputs);
        }))
unfolding map_optional_transaction map_transaction
map_optional_transaction-lift include utxo t =
    rw
      (
        transaction_outputs-lift include utxo t,
        transaction_inputs-lift include utxo t,
        plain_inputs include t,
      )
      (ground arith)
