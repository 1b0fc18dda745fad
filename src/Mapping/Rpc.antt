-- ===== src/Mapping/Rpc.antt =====
-- The values of the kaspa crates that mapping/src reads. Of each value the model keeps what the code
-- reads of it: fields, and the results of the methods that it calls (`address_to_string`,
-- `payload_to_string`, `is_builtin`, `script`, `to_be_bytes_var`).
use simply_kaspa_indexer.Prelude.{ℕ, Bool, Option, List, Bytes}

pub record RpcAddress : Type 0 where
  pub address_to_string : Bytes
  pub payload_to_string : Bytes

pub record RpcSubnetworkId : Type 0 where
  pub bytes : Bytes
  pub is_builtin : Bool

pub record RpcHeader : Type 0 where
  pub hash : Bytes
  pub version : ℕ
  pub parents_by_level : List (List Bytes)
  pub hash_merkle_root : Bytes
  pub accepted_id_merkle_root : Bytes
  pub utxo_commitment : Bytes
  pub timestamp : ℕ
  pub bits : ℕ
  pub nonce : ℕ
  pub daa_score : ℕ
  pub blue_work_bytes : Bytes
  pub blue_score : ℕ
  pub pruning_point : Bytes

pub record RpcBlockVerboseData : Type 0 where
  pub hash : Bytes
  pub transaction_ids : List Bytes
  pub merge_set_blues_hashes : List Bytes
  pub merge_set_reds_hashes : List Bytes
  pub selected_parent_hash : Bytes

pub record RpcOutpoint : Type 0 where
  pub transaction_id : Bytes
  pub index : ℕ

pub record RpcTransactionInput : Type 0 where
  pub previous_outpoint : RpcOutpoint
  pub signature_script : Bytes
  pub sig_op_count : ℕ
  pub compute_budget : ℕ

pub record RpcCovenant : Type 0 where
  pub authorizing_input : ℕ
  pub covenant_id : Bytes

-- `address` is `verbose_data.script_public_key_address`, if there is verbose data.
pub record RpcTransactionOutput : Type 0 where
  pub value : ℕ
  pub script_public_key : Bytes
  pub address : Option RpcAddress
  pub covenant : Option RpcCovenant

pub record RpcTransactionVerboseData : Type 0 where
  pub transaction_id : Bytes
  pub hash : Bytes
  pub compute_mass : ℕ
  pub block_hash : Bytes
  pub block_time : ℕ

pub record RpcTransaction : Type 0 where
  pub version : ℕ
  pub inputs : List RpcTransactionInput
  pub outputs : List RpcTransactionOutput
  pub subnetwork_id : RpcSubnetworkId
  pub payload : Bytes
  pub verbose_data : Option RpcTransactionVerboseData

pub record RpcBlock : Type 0 where
  pub header : RpcHeader
  pub transactions : List RpcTransaction
  pub verbose_data : Option RpcBlockVerboseData

-- The `RpcOptional*` types, where every field may be missing.
pub record RpcOptionalOutpoint : Type 0 where
  pub transaction_id : Option Bytes
  pub index : Option ℕ

-- `address` is `verbose_data.script_public_key_address`.
pub record RpcOptionalUtxoEntry : Type 0 where
  pub amount : Option ℕ
  pub script_public_key : Option Bytes
  pub covenant_id : Option Bytes
  pub address : Option (Option RpcAddress)

-- `utxo_entry` is `verbose_data.utxo_entry`.
pub record RpcOptionalTransactionInput : Type 0 where
  pub previous_outpoint : Option RpcOptionalOutpoint
  pub signature_script : Option Bytes
  pub sig_op_count : Option ℕ
  pub compute_budget : Option ℕ
  pub utxo_entry : Option (Option RpcOptionalUtxoEntry)

pub record RpcOptionalTransactionOutput : Type 0 where
  pub value : Option ℕ
  pub script_public_key : Option Bytes
  pub address : Option (Option RpcAddress)
  pub covenant : Option (Option RpcCovenant)

pub record RpcOptionalTransactionVerboseData : Type 0 where
  pub transaction_id : Option Bytes
  pub hash : Option Bytes
  pub compute_mass : Option ℕ
  pub block_hash : Option Bytes
  pub block_time : Option ℕ

pub record RpcOptionalTransaction : Type 0 where
  pub version : Option ℕ
  pub inputs : List RpcOptionalTransactionInput
  pub outputs : List RpcOptionalTransactionOutput
  pub subnetwork_id : Option RpcSubnetworkId
  pub payload : Option Bytes
  pub verbose_data : Option RpcOptionalTransactionVerboseData
