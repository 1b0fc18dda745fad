-- ===== src/Database/Batches/Bounds.antt =====
-- PostgreSQL takes at most 65535 bound values in a statement: no insertion has more.
use simply_kaspa_indexer.Prelude.{ℕ, ◌+◌, ◌*◌, ◌≤◌, length}
use simply_kaspa_indexer.Database.Insert.{Insertion, statement}
use simply_kaspa_indexer.Database.Insert
use simply_kaspa_indexer.Database.Batches.{
  insert_blocks, insert_block_parents, insert_txs, insert_tx_addr, insert_tx_script,
  insert_transaction_acceptances, insert_transaction_acceptances, insert_tx_script, insert_tx_addr,
  insert_txs, insert_block_parents, insert_blocks,
}

-- What `batch_scale` does to a number, as main.rs admits it: between a tenth and ten times as much.
pub record IsScale (scaled : ℕ → ℕ) : Type 0 where
  pub at_most : (n : ℕ) → scaled n ≤ 10 * n
  pub at_least : (n : ℕ) → n ≤ 10 * scaled n + 9

-- The limit of the protocol, whose count of parameters has 16 bits.
abbrev max_binds : ℕ
max_binds = 65535

abbrev pub IsSendable : Insertion → Type 0
IsSendable i = length (statement i).binds ≤ max_binds
