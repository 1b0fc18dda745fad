-- ===== src/Mapping/Tests.antt =====
-- A block, a transaction and the options of an indexer that leaves some columns out.
use simply_kaspa_indexer.Prelude.{
  All, Any, ◌≡◌, refl, true, false, none, some, [], ◌∷◌, Bytes, ◌>>=◌,
}
use simply_kaspa_indexer.Models.{Block, Bytes-discrete}
use simply_kaspa_indexer.Cli.{PruningConfig, CliArgs, CliField}
use simply_kaspa_indexer.Mapping.Rpc.{
  RpcHeader, RpcBlockVerboseData, RpcTransactionInput, RpcTransactionOutput, RpcTransaction,
  RpcBlock,
}
use simply_kaspa_indexer.Mapping.Transactions.{compress_subnetwork_id, map_transaction}
use simply_kaspa_indexer.Mapping.Transactions.Subnetwork.{
  decompress, decompress-compress_subnetwork_id,
}
use simply_kaspa_indexer.Mapping.Optional.{map_optional_transaction}
use simply_kaspa_indexer.Mapping.Optional.Lift.{
  Utxo, lift, resolved, map_from, map_optional_transaction-lift,
}
use simply_kaspa_indexer.Mapping.Mapper.{
  new, map_block, transaction_includes, is_self_send_outputs_only, is_self_send_full,
}
use simply_kaspa_indexer.Mapping.Mapper.Columns.{Columns, map_block-Columns}
use simply_kaspa_indexer.Mapping.Mapper.SelfSend.{
  PaysInto, is_self_send_outputs_only-PaysInto, is_self_send_full-outputs_only,
}

abbrev no_pruning : PruningConfig
no_pruning = record {
  prune_db = none;
  prune_batch_size = 1000;
  retention = none;
  retention_block_parent = none;
  retention_blocks = none;
  retention_transactions = none;
  retention_transactions_acceptances = none;
  retention_addresses_transactions = none;
}

-- Addresses "a" and "b" are one group, "c" another.
abbrev args : CliArgs
args = record {
  cache_ttl = 60;
  block_interval = 600;
  vcp_interval = 600;
  vcp_window = 600;
  ignore_checkpoint = none;
  pruning = no_pruning;
  disable = none;
  exclude_fields = some (CliField.block_nonce ∷ CliField.tx_in_signature_script ∷ []);
  ignore_self_sends = some ((b'a' ∷ b',' ∷ b'b' ∷ []) ∷ (b'c' ∷ []) ∷ []);
}

abbrev sample_header : RpcHeader
sample_header = record {
  hash = 1 ∷ [];
  version = 1;
  parents_by_level = ((2 ∷ []) ∷ []) ∷ [];
  hash_merkle_root = 3 ∷ [];
  accepted_id_merkle_root = 4 ∷ [];
  utxo_commitment = 5 ∷ [];
  timestamp = 1000;
  bits = 7;
  nonce = 8;
  daa_score = 9;
  blue_work_bytes = 10 ∷ [];
  blue_score = 11;
  pruning_point = 12 ∷ [];
}

abbrev sample_verbose : RpcBlockVerboseData
sample_verbose = record {
  hash = 1 ∷ [];
  transaction_ids = (13 ∷ []) ∷ [];
  merge_set_blues_hashes = [];
  merge_set_reds_hashes = [];
  selected_parent_hash = 2 ∷ [];
}

abbrev sample_output : Bytes → RpcTransactionOutput
sample_output to = record {
  value = 500;
  script_public_key = 14 ∷ [];
  covenant = none;
  address = some (record { address_to_string = to; payload_to_string = 15 ∷ [] });
}

abbrev sample_transaction : RpcTransaction
sample_transaction = record {
  version = 0;
  payload = [];
  inputs =
      record {
        previous_outpoint = record { transaction_id = 16 ∷ []; index = 0 };
        signature_script = 17 ∷ [];
        sig_op_count = 1;
        compute_budget = 0;
      }
      ∷ [];
  outputs = sample_output (b'a' ∷ []) ∷ sample_output (b'b' ∷ []) ∷ [];
  subnetwork_id = record { bytes = 3 ∷ 0 ∷ 0 ∷ []; is_builtin = false };
  verbose_data = some (record {
    transaction_id = 13 ∷ [];
    hash = 18 ∷ [];
    compute_mass = 100;
    block_hash = 1 ∷ [];
    block_time = 1000;
  });
}

abbrev sample_block : RpcBlock
sample_block = record {
  header = sample_header;
  transactions = sample_transaction ∷ [];
  verbose_data = some sample_verbose;
}

-- Every input spends an output to "b".
abbrev sample_utxo : RpcTransactionInput → Utxo
sample_utxo input = record {
  amount = 1100;
  script = 19 ∷ [];
  covenant_id = none;
  address = record { address_to_string = b'b' ∷ []; payload_to_string = 20 ∷ [] };
}

map_block-Columns_example :
    (row : Block) × (map_block (new args) sample_block ≡ some row)
    × Columns args sample_header sample_verbose row
map_block-Columns_example = map_block-Columns args sample_block sample_verbose refl

map_optional_transaction-lift_example :
    map_optional_transaction (lift sample_utxo sample_transaction) (transaction_includes (new args))
    ≡ (map_transaction sample_transaction (transaction_includes (new args)) >>= λ row.
        some (record row {
          inputs = row.inputs >>= λ _. some (
              map_from
                (resolved (transaction_includes (new args)) sample_utxo)
                0
                sample_transaction.inputs);
        }))
map_optional_transaction-lift_example =
    map_optional_transaction-lift (transaction_includes (new args)) sample_utxo sample_transaction

decompress-compress_subnetwork_id_example :
    decompress 3 (compress_subnetwork_id (3 ∷ 0 ∷ 0 ∷ [])) ≡ 3 ∷ 0 ∷ 0 ∷ []
decompress-compress_subnetwork_id_example = decompress-compress_subnetwork_id (3 ∷ 0 ∷ 0 ∷ [])

compressed : compress_subnetwork_id (3 ∷ 0 ∷ 0 ∷ []) ≡ some (3 ∷ [])
unfolding compress_subnetwork_id
compressed = refl

is_self_send_outputs_only-PaysInto_example :
    (false ≡ false)
    × (false ≡ false)
    × Any
        (λ g. All (PaysInto g) sample_transaction.outputs)
        (((b'a' ∷ []) ∷ (b'b' ∷ []) ∷ []) ∷ ((b'c' ∷ []) ∷ []) ∷ [])
unfolding new is_self_send_outputs_only Bytes-discrete
is_self_send_outputs_only-PaysInto_example =
    is_self_send_outputs_only-PaysInto (new args) sample_transaction refl

is_self_send_full-outputs_only_example :
    is_self_send_outputs_only (new args) sample_transaction ≡ some true
unfolding new is_self_send_full Bytes-discrete
is_self_send_full-outputs_only_example =
    is_self_send_full-outputs_only (new args) sample_utxo sample_transaction refl
