-- ===== src/Mapping/Mapper/SelfSend.antt =====
-- Which transactions the tests for self-sends let the indexer skip.
use simply_kaspa_indexer.Prelude.{
  ◌∙◌, sym, Any-imp, subst, >>=-eq_some, ℕ, ◌+◌, ◌≡◌, refl, Bool, true, false, ◌||◌, Option, some,
  List, [], ◌∷◌, ◌++◌, map, Bytes, arith, if◌then◌else◌, is_empty, ◌>>=◌, All, Any, inl, inr,
  Option-cases, Bool-cases,
}
use simply_kaspa_indexer.Cli.{contains}
use simply_kaspa_indexer.Cli.Contains.{contains-Any}
use simply_kaspa_indexer.Models.{Bytes-discrete}
use simply_kaspa_indexer.Mapping.Rpc.{
  RpcAddress, RpcTransaction, RpcTransactionOutput, RpcTransactionInput,
}
use simply_kaspa_indexer.Mapping.Transactions.{try_map_from}
use simply_kaspa_indexer.Mapping.Optional.{unwrap_both}
use simply_kaspa_indexer.Mapping.Optional.Lift.{Utxo, lift, lift_output}
use simply_kaspa_indexer.Mapping.Mapper.{
  RpcSubnetworkId, RpcOptionalTransaction, KaspaDbMapper, all_in, some_group_holds,
  is_self_send_outputs_only, is_self_send_full,
}

-- An output pays an address of the group.
abbrev pub PaysInto : List Bytes → RpcTransactionOutput → Type 0
PaysInto group o =
    (a : RpcAddress) × (o.address ≡ some a) × Any (λ x. a.address_to_string ≡ x) group

abbrev pub output_address : ℕ → RpcTransactionOutput → Option Bytes
output_address i o = o.address >>= λ a. some a.address_to_string

all_in-PaysInto :
    (group : List Bytes) (i : ℕ) (outputs : List RpcTransactionOutput) {addrs : List Bytes}
    → try_map_from output_address i outputs ≡ some addrs
    → all_in group addrs ≡ true
    → All (PaysInto group) outputs
unfolding try_map_from all_in
all_in-PaysInto group i [] {addrs} e h = tt
all_in-PaysInto group i (o ∷ os) {addrs} e h =
    let (y, found, e₁) = >>=-eq_some (output_address i o) _ e in
    let (ys, rest, e₂) = >>=-eq_some (try_map_from output_address (i + 1) os) _ e₁ in
    let (a, there, e₃) = >>=-eq_some o.address _ found in
    let head : y ≡ a.address_to_string = cc in
    let both : (contains Bytes-discrete y group ≡ true) × (all_in group ys ≡ true) = ground arith in
    (
      (
        a,
        there,
        subst (λ z. Any (λ x. z ≡ x) group) head (contains-Any Bytes-discrete y group both.0),
      ),
      all_in-PaysInto group (i + 1) os rest both.1,
    )

holds-Any :
    (groups : List (List Bytes)) (addrs : List Bytes)
    → some_group_holds groups addrs ≡ true
    → Any (λ g. all_in g addrs ≡ true) groups
unfolding some_group_holds
holds-Any [] addrs h = cc
holds-Any (g ∷ groups) addrs h = elim (Bool-cases (all_in g addrs)) [
  | inl e ↦ inl e
  | inr e ↦ inr (holds-Any groups addrs (ground arith))
]

-- What the test for outputs found when it holds: no group and output is missing, the transaction is
-- no coinbase, and the addresses read lie in one group.
outputs_only-cases :
    (m : KaspaDbMapper) (t : RpcTransaction)
    → is_self_send_outputs_only m t ≡ some true
    → (t.subnetwork_id.is_builtin ≡ false)
      × (is_empty t.outputs ≡ false)
      × (addrs : List Bytes) × (try_map_from output_address 0 t.outputs ≡ some addrs)
      × (some_group_holds m.ignore_self_sends_groups addrs ≡ true)
unfolding is_self_send_outputs_only
outputs_only-cases m t h =
    elim (Bool-cases (is_empty m.ignore_self_sends_groups || is_empty t.outputs)) [
      | inl e ↦ ground arith
      | inr e ↦ elim (Bool-cases t.subnetwork_id.is_builtin) [
        | inl e₁ ↦ ground arith
        | inr e₁ ↦
            let rest : (try_map_from output_address 0 t.outputs >>= λ a.
            some (some_group_holds m.ignore_self_sends_groups a))
                ≡ some true =
              ground arith in
            let (addrs, found, held) : (a : List Bytes) × (try_map_from output_address 0 t.outputs
                  ≡ some a)
                × (some (some_group_holds m.ignore_self_sends_groups a) ≡ some true) =
              >>=-eq_some (try_map_from output_address 0 t.outputs) _ rest in
            (e₁, ground arith, addrs, found, ground arith)
      ]
    ]

-- A transaction that the test of its outputs skips is no coinbase, has outputs, and pays
-- addresses of one group only.
pub is_self_send_outputs_only-PaysInto :
    (m : KaspaDbMapper) (t : RpcTransaction)
    → is_self_send_outputs_only m t ≡ some true
    → (t.subnetwork_id.is_builtin ≡ false)
      × (is_empty t.outputs ≡ false)
      × Any (λ g. All (PaysInto g) t.outputs) m.ignore_self_sends_groups
is_self_send_outputs_only-PaysInto m t h =
    let (user, full, addrs, found, held) = outputs_only-cases m t h in
    (
      user,
      full,
      Any-imp (λ g in_g. all_in-PaysInto g 0 t.outputs found in_g) m.ignore_self_sends_groups
          (holds-Any m.ignore_self_sends_groups addrs held),
    )

all_in-append : (group xs ys : List Bytes) → all_in group (xs ++ ys) ≡ true → all_in group xs ≡ true
unfolding all_in
all_in-append group [] ys h = refl
all_in-append group (x ∷ xs) ys h = ground (arith, all_in-append group xs ys)

some_group_holds-append :
    (groups : List (List Bytes)) (xs ys : List Bytes)
    → some_group_holds groups (xs ++ ys) ≡ true
    → some_group_holds groups xs ≡ true
unfolding some_group_holds
some_group_holds-append [] xs ys h = h
some_group_holds-append (g ∷ groups) xs ys h =
    ground (arith, all_in-append g xs ys, some_group_holds-append groups xs ys)

addresses-lift :
    (i : ℕ) (xs : List RpcTransactionOutput)
    → try_map_from
        (λ i o. unwrap_both o.address >>= λ a. some a.address_to_string)
        i
        (map lift_output xs)
      ≡ try_map_from output_address i xs
unfolding try_map_from
addresses-lift i [] = refl
addresses-lift i (x ∷ xs) = elim (Option-cases x.address) [
  | inl e ↦ rw e refl
  | inr (a, e) ↦ rw (e, addresses-lift (i + 1) xs) refl
]

is_empty-map {ℓ κ} :
    {A : Type ℓ} {B : Type κ} (f : A → B) (xs : List A) → is_empty (map f xs) ≡ is_empty xs
is_empty-map f [] = refl
is_empty-map f (x ∷ xs) = refl

-- The steps of the full test, one after another.
abbrev output_addresses : RpcOptionalTransaction → Option (List Bytes)
output_addresses t =
    try_map_from (λ i o. unwrap_both o.address >>= λ a. some a.address_to_string) 0 t.outputs

abbrev input_addresses : RpcOptionalTransaction → Option (List Bytes)
input_addresses t =
    try_map_from
      (λ i input. unwrap_both input.utxo_entry >>= λ utxo.
        unwrap_both utxo.address >>= λ a. some a.address_to_string)
      0 t.inputs

abbrev after_outputs : KaspaDbMapper → RpcOptionalTransaction → List Bytes → Option Bool
after_outputs m t outs =
    input_addresses t >>= λ ins. some (some_group_holds m.ignore_self_sends_groups (outs ++ ins))

abbrev after_id : KaspaDbMapper → RpcOptionalTransaction → RpcSubnetworkId → Option Bool
after_id m t id = if id.is_builtin then some false else (output_addresses t >>= after_outputs m t)

-- What the full test found when it holds.
full-cases :
    (m : KaspaDbMapper) (t : RpcOptionalTransaction)
    → is_self_send_full m t ≡ some true
    → (is_empty m.ignore_self_sends_groups || is_empty t.outputs ≡ false)
      × (id : RpcSubnetworkId) × (t.subnetwork_id ≡ some id)
      × (id.is_builtin ≡ false)
      × (outs : List Bytes) × (output_addresses t ≡ some outs)
      × (ins : List Bytes) × (some_group_holds m.ignore_self_sends_groups (outs ++ ins) ≡ true)
unfolding is_self_send_full
full-cases m t h = elim (Bool-cases (is_empty m.ignore_self_sends_groups || is_empty t.outputs)) [
  | inl e ↦ ground arith
  | inr e ↦
      let rest : (t.subnetwork_id >>= after_id m t) ≡ some true = ground arith in
      let (id, same, e₁) : (id : RpcSubnetworkId) × (t.subnetwork_id ≡ some id)
          × (after_id m t id ≡ some true) =
        >>=-eq_some t.subnetwork_id (after_id m t) rest in
      elim (Bool-cases id.is_builtin) [
        | inl builtin ↦ ground arith
        | inr user ↦
            let rest₁ : (output_addresses t >>= after_outputs m t) ≡ some true = ground arith in
            let (outs, found, e₂) : (outs : List Bytes) × (output_addresses t ≡ some outs)
                × (after_outputs m t outs ≡ some true) =
              >>=-eq_some (output_addresses t) (after_outputs m t) rest₁ in
            let (ins, _, e₃) : (ins : List Bytes) × (input_addresses t ≡ some ins)
                × (some (some_group_holds m.ignore_self_sends_groups (outs ++ ins)) ≡ some true) =
              >>=-eq_some (input_addresses t) _ e₂ in
            (e, id, same, user, outs, found, ins, ground arith)
      ]
]

-- Of a transaction with nothing missing: if the full test, which counts its inputs, skips it,
-- then the test of its outputs skips the same transaction.
pub is_self_send_full-outputs_only :
    (m : KaspaDbMapper) (utxo : RpcTransactionInput → Utxo) (t : RpcTransaction)
    → is_self_send_full m (lift utxo t) ≡ some true
    → is_self_send_outputs_only m t ≡ some true
unfolding is_self_send_outputs_only
is_self_send_full-outputs_only m utxo t h =
    let (full, id, same, user, outs, found, ins, held) = full-cases m (lift utxo t) h in
    let found₁ : try_map_from output_address 0 t.outputs ≡ some outs =
      sym (addresses-lift 0 t.outputs) ∙ found in
    let held₁ : some_group_holds m.ignore_self_sends_groups outs ≡ true =
      some_group_holds-append m.ignore_self_sends_groups outs ins held in
    let there : is_empty m.ignore_self_sends_groups || is_empty t.outputs ≡ false =
      rw (← is_empty-map lift_output t.outputs) full in
    let user₁ : t.subnetwork_id.is_builtin ≡ false = cc in rw (there, user₁, found₁) (rw held₁ refl)
