-- ===== src/Cli.antt =====
-- cli/src/cli_args.rs: the options that the indexer's components read. Parsing the command line
-- is clap's. A `Duration` is a number of nanoseconds.
pub mod Contains
use mathlib.Core.Bool.{decide}
use simply_kaspa_indexer.Prelude.{ℕ, Bool, false, ◌||◌, Option, none, some, List, [], ◌∷◌, Bytes}

-- `enum CliDisable`.
pub data CliDisable : Type 0 where
  nothing : CliDisable
  virtual_chain_processing transaction_acceptance transaction_processing : CliDisable
  blocks_table block_parent_table transactions_table : CliDisable
  transactions_inputs transactions_outputs addresses_transactions_table : CliDisable
  rejected_transactions rejected_non_cb_transactions : CliDisable

-- `enum CliField`.
pub data CliField : Type 0 where
  nothing : CliField
  block_accepted_id_merkle_root block_transaction_ids block_merge_set_blues_hashes : CliField
  block_merge_set_reds_hashes block_selected_parent_hash block_bits block_blue_work : CliField
  block_blue_score block_daa_score block_hash_merkle_root block_nonce : CliField
  block_pruning_point block_timestamp block_utxo_commitment block_version : CliField
  tx_subnetwork_id tx_hash tx_mass tx_payload tx_block_time : CliField
  tx_in_previous_outpoint tx_in_signature_script tx_in_sig_op_count : CliField
  tx_in_compute_budget tx_in_covenant_id tx_out_amount tx_out_script_public_key : CliField
  tx_out_script_public_key_address tx_block_hash : CliField
  tx_out_covenant_authorizing_input tx_out_covenant_id : CliField

unfoldable pub CliDisable-discrete : Discrete CliDisable
CliDisable-discrete = hlevel

unfoldable pub CliField-discrete : Discrete CliField
CliField-discrete = hlevel

-- `Vec::contains`.
unfoldable pub contains {ℓ} : {A : Type ℓ} → Discrete A → A → List A → Bool
unfolding decide
contains dec a [] = false
contains dec a (x ∷ xs) = decide (dec a x) || contains dec a xs

-- The pruning options. `retention` is the default of the five below it.
pub record PruningConfig : Type 0 where
  pub prune_db : Option Bytes
  pub prune_batch_size : ℕ
  pub retention : Option ℕ
  pub retention_block_parent : Option ℕ
  pub retention_blocks : Option ℕ
  pub retention_transactions : Option ℕ
  pub retention_transactions_acceptances : Option ℕ
  pub retention_addresses_transactions : Option ℕ

pub record CliArgs : Type 0 where
  pub cache_ttl : ℕ
  pub block_interval : ℕ
  pub vcp_interval : ℕ
  pub vcp_window : ℕ
  pub ignore_checkpoint : Option Bytes
  pub pruning : PruningConfig
  pub disable : Option (List CliDisable)
  pub exclude_fields : Option (List CliField)
  pub ignore_self_sends : Option (List Bytes)

unfoldable pub is_disabled : CliArgs → CliDisable → Bool
unfolding contains CliDisable-discrete
is_disabled args feature = elim args.disable [
  | none ↦ false
  | some disable ↦ contains CliDisable-discrete feature disable
]

unfoldable pub is_excluded : CliArgs → CliField → Bool
unfolding contains CliField-discrete
is_excluded args field = elim args.exclude_fields [
  | none ↦ false
  | some exclude_fields ↦ contains CliField-discrete field exclude_fields
]

-- `specific.or(self.retention)`.
resolve : PruningConfig → Option ℕ → Option ℕ
resolve config none = config.retention
resolve config (some d) = some d

unfoldable pub resolved : PruningConfig → PruningConfig
unfolding resolve
resolved c = record c {
  retention_block_parent = resolve c c.retention_block_parent;
  retention_blocks = resolve c c.retention_blocks;
  retention_transactions = resolve c c.retention_transactions;
  retention_transactions_acceptances = resolve c c.retention_transactions_acceptances;
  retention_addresses_transactions = resolve c c.retention_addresses_transactions;
}
