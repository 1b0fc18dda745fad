-- ===== src/Mapping/Mapper/Columns.antt =====
-- Which columns of a block's row the options leave out.
use simply_kaspa_indexer.Prelude.{
  ◌≡◌, refl, Bool, true, false, not, ◌&&◌, Option, none, some, List, arith, as_i16, as_i64,
  if◌then◌else◌, then_some, is_empty,
}
use simply_kaspa_indexer.Cli.{CliArgs, CliField, is_excluded}
use simply_kaspa_indexer.Models.{Block}
use simply_kaspa_indexer.Mapping.Rpc.{RpcBlock, RpcHeader, RpcBlockVerboseData}
use simply_kaspa_indexer.Mapping.Blocks.{be_bytes, block_row}
use simply_kaspa_indexer.Mapping.Mapper.{new, map_block, block_includes}

-- What a column holds that the option for `field` may exclude.
abbrev pub column {ℓ} : {A : Type ℓ} → CliArgs → CliField → A → Option A
column args field a = if is_excluded args field then none else some a

-- A list column is also NULL where the list is empty.
abbrev pub list_column {ℓ} : {A : Type ℓ} → CliArgs → CliField → List A → Option (List A)
list_column args field xs = if is_empty xs then none else column args field xs

pub record Columns (args : CliArgs) (h : RpcHeader) (v : RpcBlockVerboseData) (row : Block)
    : Type 0 where
  pub hash : row.hash ≡ h.hash
  pub accepted_id_merkle_root :
      row.accepted_id_merkle_root
      ≡ column args CliField.block_accepted_id_merkle_root (h.accepted_id_merkle_root)
  pub transaction_ids :
      row.transaction_ids ≡ list_column args CliField.block_transaction_ids v.transaction_ids
  pub merge_set_blues_hashes :
      row.merge_set_blues_hashes
      ≡ list_column args CliField.block_merge_set_blues_hashes v.merge_set_blues_hashes
  pub merge_set_reds_hashes :
      row.merge_set_reds_hashes
      ≡ list_column args CliField.block_merge_set_reds_hashes v.merge_set_reds_hashes
  pub selected_parent_hash :
      row.selected_parent_hash
      ≡ column args CliField.block_selected_parent_hash (v.selected_parent_hash)
  pub bits : row.bits ≡ column args CliField.block_bits (as_i64 h.bits)
  pub blue_work : row.blue_work ≡ column args CliField.block_blue_work (h.blue_work_bytes)
  pub blue_score : row.blue_score ≡ column args CliField.block_blue_score (as_i64 h.blue_score)
  pub daa_score : row.daa_score ≡ column args CliField.block_daa_score (as_i64 h.daa_score)
  pub hash_merkle_root :
      row.hash_merkle_root ≡ column args CliField.block_hash_merkle_root (h.hash_merkle_root)
  pub nonce : row.nonce ≡ column args CliField.block_nonce (be_bytes 8 h.nonce)
  pub pruning_point : row.pruning_point ≡ column args CliField.block_pruning_point (h.pruning_point)
  pub timestamp : row.timestamp ≡ column args CliField.block_timestamp (as_i64 h.timestamp)
  pub utxo_commitment :
      row.utxo_commitment ≡ column args CliField.block_utxo_commitment (h.utxo_commitment)
  pub version : row.version ≡ column args CliField.block_version (as_i16 h.version)

then_some-not {ℓ} :
    {A : Type ℓ} (b : Bool) (a : A) → then_some (not b) a ≡ (if b then none else some a)
then_some-not true a = refl
then_some-not false a = refl

then_some-list {ℓ} :
    {A : Type ℓ} (b : Bool) (xs : List A)
    → then_some (not b && not (is_empty xs)) xs
      ≡ (if is_empty xs then none else (if b then none else some xs))
then_some-list b xs = ground arith

-- With the mapper that the options make, a block with verbose data is mapped without a panic, and
-- each column holds the block's own value of that name exactly where the option of that name does
-- not exclude it; the three lists are also left out where they are empty.
pub map_block-Columns :
    (args : CliArgs) (b : RpcBlock) (v : RpcBlockVerboseData)
    → b.verbose_data ≡ some v
    → (row : Block) × (map_block (new args) b ≡ some row) × Columns args b.header v row
unfolding map_block new
map_block-Columns args b v e = (
  block_row b.header v (block_includes (new args)),
  rw e,
  record {
    hash = refl;
    accepted_id_merkle_root = then_some-not _ _;
    transaction_ids = then_some-list _ _;
    merge_set_blues_hashes = then_some-list _ _;
    merge_set_reds_hashes = then_some-list _ _;
    selected_parent_hash = then_some-not _ _;
    bits = then_some-not _ _;
    blue_work = then_some-not _ _;
    blue_score = then_some-not _ _;
    daa_score = then_some-not _ _;
    hash_merkle_root = then_some-not _ _;
    nonce = then_some-not _ _;
    pruning_point = then_some-not _ _;
    timestamp = then_some-not _ _;
    utxo_commitment = then_some-not _ _;
    version = then_some-not _ _;
  },
)
