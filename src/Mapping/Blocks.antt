-- ===== src/Mapping/Blocks.antt =====
-- mapping/src/blocks.rs. The `include_*` arguments are the fields of a record.
use simply_kaspa_indexer.Prelude.{
  ℕ, zero, suc, ◌/◌, ◌%◌, ◌^◌, Bool, not, ◌&&◌, Option, some, List, [], ◌∷◌, map, Bytes, as_i16,
  as_i64, ◌>>=◌, is_empty, then_some,
}
use simply_kaspa_indexer.Models.{Block, BlockParent}
use simply_kaspa_indexer.Mapping.Rpc.{RpcBlock, RpcHeader, RpcBlockVerboseData}

pub record BlockIncludes : Type 0 where
  pub accepted_id_merkle_root : Bool
  pub transaction_ids : Bool
  pub merge_set_blues_hashes : Bool
  pub merge_set_reds_hashes : Bool
  pub selected_parent_hash : Bool
  pub bits : Bool
  pub blue_work : Bool
  pub blue_score : Bool
  pub daa_score : Bool
  pub hash_merkle_root : Bool
  pub nonce : Bool
  pub pruning_point : Bool
  pub timestamp : Bool
  pub utxo_commitment : Bool
  pub version : Bool

-- `u64::to_be_bytes`: `n` bytes, the most significant first.
unfoldable pub be_bytes : ℕ → ℕ → Bytes
be_bytes zero x = []
be_bytes (suc n) x = x / 256 ^ n % 256 ∷ be_bytes n x

unfoldable pub block_row : RpcHeader → RpcBlockVerboseData → BlockIncludes → Block
unfolding be_bytes
block_row h v include = record {
  hash = h.hash;
  accepted_id_merkle_root = then_some include.accepted_id_merkle_root h.accepted_id_merkle_root;
  transaction_ids =
      then_some (include.transaction_ids && not (is_empty v.transaction_ids)) v.transaction_ids;
  merge_set_blues_hashes =
      then_some (include.merge_set_blues_hashes && not (is_empty v.merge_set_blues_hashes))
        v.merge_set_blues_hashes;
  merge_set_reds_hashes =
      then_some (include.merge_set_reds_hashes && not (is_empty v.merge_set_reds_hashes))
        v.merge_set_reds_hashes;
  selected_parent_hash = then_some include.selected_parent_hash v.selected_parent_hash;
  bits = then_some include.bits (as_i64 h.bits);
  blue_score = then_some include.blue_score (as_i64 h.blue_score);
  blue_work = then_some include.blue_work h.blue_work_bytes;
  daa_score = then_some include.daa_score (as_i64 h.daa_score);
  hash_merkle_root = then_some include.hash_merkle_root h.hash_merkle_root;
  nonce = then_some include.nonce (be_bytes 8 h.nonce);
  pruning_point = then_some include.pruning_point h.pruning_point;
  timestamp = then_some include.timestamp (as_i64 h.timestamp);
  utxo_commitment = then_some include.utxo_commitment h.utxo_commitment;
  version = then_some include.version (as_i16 h.version);
}

-- `none` is the panic of `expect` where the verbose data is missing.
unfoldable pub map_block : RpcBlock → BlockIncludes → Option Block
unfolding block_row
map_block block include = block.verbose_data >>= λ v. some (block_row block.header v include)

parents_of : Bytes → List (List Bytes) → List BlockParent
parents_of hash [] = []
parents_of hash (direct ∷ levels) = map (λ p. record { block_hash = hash; parent_hash = p }) direct

unfoldable pub map_block_parents : RpcBlock → List BlockParent
unfolding parents_of
map_block_parents block = parents_of block.header.hash block.header.parents_by_level
