-- ===== src/Database/Batches.antt =====
-- How rows are sorted and cut into statements: `slice::sort_by` and `slice::chunks`, as the
-- insertions of process_blocks.rs, process_transactions.rs and accept_transactions.rs use them.
-- A `batch_scale` is a f64, so `scaled n` stands for `(n as f64 * batch_scale) as usize`; the casts
-- to u16 there do not cut, since main.rs admits a scale of 10 at most.
pub mod Cover
pub mod Calls
pub mod Bounds
mod Tests
use Prim.Native.Nat.{compare, Ordering}
use simply_kaspa_indexer.Prelude.{
  ℕ, zero, suc, ◌+◌, min, Bool, true, false, Option, none, some, List, [], ◌∷◌, Bytes, ℤ, pos_part,
  neg_part, length, map, take, drop, if◌then◌else◌, ◌==◌, ◌>>=◌,
}
use simply_kaspa_indexer.Database.Insert.{
  Insertion, into_blocks, into_block_parent, into_transactions, into_addresses_transactions,
  into_scripts_transactions, into_transactions_acceptances,
}
use simply_kaspa_indexer.Models.{
  Block, BlockParent, Transaction, TransactionAcceptance, AddressTransaction, ScriptTransaction,
}

-- `Ord for Hash`, and that of `Vec<u8>` and `String`: by the first byte that differs.
unfoldable pub cmp_bytes : Bytes → Bytes → Ordering
cmp_bytes [] [] = Ordering.eq
cmp_bytes [] (b ∷ bs) = Ordering.lt
cmp_bytes (a ∷ xs) [] = Ordering.gt
cmp_bytes (a ∷ xs) (b ∷ bs) = elim (compare a b) [
  | Ordering.lt ↦ Ordering.lt
  | Ordering.eq ↦ cmp_bytes xs bs
  | Ordering.gt ↦ Ordering.gt
]

abbrev pub cmp_ℤ : ℤ → ℤ → Ordering
cmp_ℤ a b = compare (pos_part a + neg_part b) (pos_part b + neg_part a)

-- `Ordering::then`.
abbrev pub cmp_then : Ordering → Ordering → Ordering
cmp_then Ordering.lt o = Ordering.lt
cmp_then Ordering.eq o = o
cmp_then Ordering.gt o = Ordering.gt

-- `None` stands before every `Some`.
abbrev pub cmp_option : Option Bytes → Option Bytes → Ordering
cmp_option none none = Ordering.eq
cmp_option none (some b) = Ordering.lt
cmp_option (some a) none = Ordering.gt
cmp_option (some a) (some b) = cmp_bytes a b

-- Where a row goes that is compared with the first of a sorted list: `later` is the list behind
-- that, with the row in it.
unfoldable pub place : {A : Type 0} → Ordering → A → A → List A → List A → List A
place Ordering.lt a b bs later = a ∷ b ∷ bs
place Ordering.eq a b bs later = a ∷ b ∷ bs
place Ordering.gt a b bs later = b ∷ later

-- The stable sort.
module _ {A : Type 0} (cmp : A → A → Ordering) where
  unfoldable pub insert_sorted : A → List A → List A
  unfolding place
  insert_sorted a [] = a ∷ []
  insert_sorted a (b ∷ bs) = place (cmp a b) a b bs (insert_sorted a bs)

  unfoldable pub sort_by : List A → List A
  unfolding insert_sorted
  sort_by [] = []
  sort_by (a ∷ xs) = insert_sorted a (sort_by xs)

module _ {A : Type 0} where
  unfoldable pub chunks_from : ℕ → ℕ → List A → List (List A)
  chunks_from zero size xs = []
  chunks_from (suc fuel) size [] = []
  chunks_from (suc fuel) size (x ∷ xs) =
      take size (x ∷ xs) ∷ chunks_from fuel size (drop size (x ∷ xs))

  -- `chunks(0)` panics.
  unfoldable pub chunks : ℕ → List A → Option (List (List A))
  unfolding chunks_from
  chunks size xs = if size == 0 then none else some (chunks_from (length xs) size xs)

-- The sizes of the statements.
abbrev pub blocks_size : (ℕ → ℕ) → ℕ
blocks_size scaled = min (scaled 550) 4000

abbrev pub block_parents_size : (ℕ → ℕ) → ℕ
block_parents_size scaled = min (scaled 1300) 32000

abbrev pub txs_size : (ℕ → ℕ) → ℕ
txs_size scaled = min (scaled 250) 7000

abbrev pub tx_addr_size : (ℕ → ℕ) → ℕ
tx_addr_size scaled = min (scaled 650) 21000

abbrev pub tx_script_size : (ℕ → ℕ) → ℕ
tx_script_size scaled = min (scaled 800) 21000

abbrev pub acceptances_size : (ℕ → ℕ) → ℕ
acceptances_size scaled = min (scaled 1300) 30000

abbrev pub chain_blocks_size : (ℕ → ℕ) → ℕ
chain_blocks_size scaled = min (scaled 2000) 65000

abbrev cmp_tx_addr : AddressTransaction → AddressTransaction → Ordering
cmp_tx_addr a b =
    cmp_then (cmp_then (cmp_bytes a.address b.address) (cmp_ℤ a.block_time b.block_time))
      (cmp_bytes a.transaction_id b.transaction_id)

abbrev cmp_tx_script : ScriptTransaction → ScriptTransaction → Ordering
cmp_tx_script a b =
    cmp_then
      (cmp_then (cmp_bytes a.script_public_key b.script_public_key)
        (cmp_ℤ a.block_time b.block_time))
      (cmp_bytes a.transaction_id b.transaction_id)

-- The statements that the functions of these names send. Each stands in its own source file; the
-- last argument of `insert_txs` is `upsert_inputs`.
unfoldable pub insert_blocks : (ℕ → ℕ) → List Block → Option (List Insertion)
unfolding chunks
insert_blocks scaled values = do
  parts ← chunks (blocks_size scaled) values
  some (map into_blocks parts)

unfoldable pub insert_block_parents : (ℕ → ℕ) → List BlockParent → Option (List Insertion)
unfolding chunks
insert_block_parents scaled values = do
  parts ← chunks (block_parents_size scaled) values
  some (map into_block_parent parts)

unfoldable pub insert_txs : (ℕ → ℕ) → List Transaction → Bool → Option (List Insertion)
unfolding sort_by chunks cmp_bytes
insert_txs scaled values upsert_inputs = do
  parts ←
      chunks (txs_size scaled) (sort_by (λ a b. cmp_bytes a.transaction_id b.transaction_id) values)
  some (map (λ part. into_transactions part upsert_inputs) parts)

unfoldable pub insert_tx_addr : (ℕ → ℕ) → List AddressTransaction → Option (List Insertion)
unfolding sort_by chunks cmp_bytes
insert_tx_addr scaled values = do
  parts ← chunks (tx_addr_size scaled) (sort_by cmp_tx_addr values)
  some (map into_addresses_transactions parts)

unfoldable pub insert_tx_script : (ℕ → ℕ) → List ScriptTransaction → Option (List Insertion)
unfolding sort_by chunks cmp_bytes
insert_tx_script scaled values = do
  parts ← chunks (tx_script_size scaled) (sort_by cmp_tx_script values)
  some (map into_scripts_transactions parts)

unfoldable pub insert_transaction_acceptances :
    (ℕ → ℕ) → List TransactionAcceptance → Option (List Insertion)
unfolding sort_by chunks cmp_bytes
insert_transaction_acceptances scaled values = do
  parts ←
      chunks (acceptances_size scaled)
        (sort_by (λ a b. cmp_option a.transaction_id b.transaction_id) values)
  some (map into_transactions_acceptances parts)

-- The function that is called for the rows of a table.
unfoldable pub split : (ℕ → ℕ) → Insertion → Option (List Insertion)
unfolding insert_blocks insert_block_parents insert_txs insert_tx_addr insert_tx_script
    insert_transaction_acceptances
split scaled (into_blocks rows) = insert_blocks scaled rows
split scaled (into_block_parent rows) = insert_block_parents scaled rows
split scaled (into_transactions rows upsert_inputs) = insert_txs scaled rows upsert_inputs
split scaled (into_addresses_transactions rows) = insert_tx_addr scaled rows
split scaled (into_scripts_transactions rows) = insert_tx_script scaled rows
split scaled (into_transactions_acceptances rows) = insert_transaction_acceptances scaled rows
