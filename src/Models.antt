-- ===== src/Models.antt =====
-- database/src/models: the rows that the indexer writes. A hash, a script, a text and a payload are
-- their bytes. The `Eq` of a row looks at its key only.
use simply_kaspa_indexer.Prelude.{refl, true, arith, ◌≡◌, Bool, ◌&&◌, Option, List, Bytes, ℤ}
use mathlib.Core.Bool.{true, decide}
use native.Mathlib.Decide.{ℕ_discrete}

unfoldable pub Bytes-discrete : Discrete Bytes
unfolding ℕ_discrete
Bytes-discrete = hlevel ℕ_discrete

-- `==` of byte strings.
unfoldable pub bytes_eq : Bytes → Bytes → Bool
unfolding Bytes-discrete decide
bytes_eq a b = decide (Bytes-discrete a b)

pub record Block : Type 0 where
  pub hash : Bytes
  pub accepted_id_merkle_root : Option Bytes
  pub transaction_ids : Option (List Bytes)
  pub merge_set_blues_hashes : Option (List Bytes)
  pub merge_set_reds_hashes : Option (List Bytes)
  pub selected_parent_hash : Option Bytes
  pub bits : Option ℤ
  pub blue_score : Option ℤ
  pub blue_work : Option Bytes
  pub daa_score : Option ℤ
  pub hash_merkle_root : Option Bytes
  pub nonce : Option Bytes
  pub pruning_point : Option Bytes
  pub timestamp : Option ℤ
  pub utxo_commitment : Option Bytes
  pub version : Option ℤ

pub record BlockParent : Type 0 where
  pub block_hash : Bytes
  pub parent_hash : Bytes

pub record TransactionInput : Type 0 where
  pub index : ℤ
  pub previous_outpoint_hash : Option Bytes
  pub previous_outpoint_index : Option ℤ
  pub signature_script : Option Bytes
  pub sig_op_count : Option ℤ
  pub previous_outpoint_script : Option Bytes
  pub previous_outpoint_amount : Option ℤ
  pub compute_budget : Option ℤ
  pub covenant_id : Option Bytes

pub record TransactionOutput : Type 0 where
  pub index : ℤ
  pub amount : Option ℤ
  pub script_public_key : Option Bytes
  pub script_public_key_address : Option Bytes
  pub covenant_authorizing_input : Option ℤ
  pub covenant_id : Option Bytes

pub record Transaction : Type 0 where
  pub transaction_id : Bytes
  pub subnetwork_id : Option Bytes
  pub hash : Option Bytes
  pub mass : Option ℤ
  pub payload : Option Bytes
  pub block_time : Option ℤ
  pub version : Option ℤ
  pub inputs : Option (List TransactionInput)
  pub outputs : Option (List TransactionOutput)
  pub block_hash : Option Bytes

pub record TransactionAcceptance : Type 0 where
  pub transaction_id : Option Bytes
  pub block_hash : Option Bytes

pub record AddressTransaction : Type 0 where
  pub address : Bytes
  pub transaction_id : Bytes
  pub block_time : ℤ

pub record ScriptTransaction : Type 0 where
  pub script_public_key : Bytes
  pub transaction_id : Bytes
  pub block_time : ℤ

-- `PartialEq for AddressTransaction` and `PartialEq for ScriptTransaction`.
unfoldable pub address_transaction_eq : AddressTransaction → AddressTransaction → Bool
unfolding bytes_eq
address_transaction_eq a b =
    bytes_eq a.address b.address && bytes_eq a.transaction_id b.transaction_id

unfoldable pub script_transaction_eq : ScriptTransaction → ScriptTransaction → Bool
unfolding bytes_eq
script_transaction_eq a b =
    bytes_eq a.script_public_key b.script_public_key && bytes_eq a.transaction_id b.transaction_id

pub bytes_eq-eq : (a b : Bytes) → bytes_eq a b ≡ true → a ≡ b
unfolding bytes_eq
bytes_eq-eq a b h = elim (Bytes-discrete a b) [ yes e ↦ e | no ne ↦ ground arith ]

pub bytes_eq_refl : (a : Bytes) → bytes_eq a a ≡ true
unfolding bytes_eq
bytes_eq_refl a = elim (Bytes-discrete a a) [ yes e ↦ ground arith | no ne ↦ absurd (ne refl) ]
