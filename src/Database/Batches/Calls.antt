-- ===== src/Database/Batches/Calls.antt =====
-- Each row that is passed to an insertion is in a statement that it sends.
use simply_kaspa_indexer.Prelude.{
  ℕ, ◌≡◌, Bool, some, List, map, Option-cases, ◌>>=◌, Any, inl, inr, arith,
}
use simply_kaspa_indexer.Models.{
  Block, BlockParent, Transaction, AddressTransaction, ScriptTransaction, TransactionAcceptance,
}
use simply_kaspa_indexer.Database.Insert.{
  Insertion, into_blocks, into_block_parent, into_transactions, into_addresses_transactions,
  into_scripts_transactions, into_transactions_acceptances,
}
use simply_kaspa_indexer.Database.Batches.{
  chunks, sort_by, insert_blocks, insert_block_parents, insert_txs, insert_tx_addr,
  insert_tx_script, insert_transaction_acceptances, blocks_size, block_parents_size, txs_size,
  tx_addr_size, tx_script_size, acceptances_size,
}
use simply_kaspa_indexer.Database.Batches.Cover.{chunks-Any, sort_by-Any, Any-map}

-- The rows that a call inserts into one table.
abbrev pub InBlocks : (Block → Type 0) → Insertion → Type 0
InBlocks P (into_blocks rows) = Any P rows
InBlocks P _ = ⊥

abbrev pub InBlockParent : (BlockParent → Type 0) → Insertion → Type 0
InBlockParent P (into_block_parent rows) = Any P rows
InBlockParent P _ = ⊥

abbrev pub InTransactions : (Transaction → Type 0) → Insertion → Type 0
InTransactions P (into_transactions rows upsert_inputs) = Any P rows
InTransactions P _ = ⊥

abbrev pub InAddressesTransactions : (AddressTransaction → Type 0) → Insertion → Type 0
InAddressesTransactions P (into_addresses_transactions rows) = Any P rows
InAddressesTransactions P _ = ⊥

abbrev pub InScriptsTransactions : (ScriptTransaction → Type 0) → Insertion → Type 0
InScriptsTransactions P (into_scripts_transactions rows) = Any P rows
InScriptsTransactions P _ = ⊥

abbrev pub InAcceptances : (TransactionAcceptance → Type 0) → Insertion → Type 0
InAcceptances P (into_transactions_acceptances rows) = Any P rows
InAcceptances P _ = ⊥

module _ {A : Type 0} (P : A → Type 0) where
  calls-Any :
      (size : ℕ) (xs : List A) (call : List A → Insertion) (In : Insertion → Type 0)
      {calls : List Insertion}
      → ((part : List A) → Any P part → In (call part))
      → (chunks size xs >>= λ parts. some (map call parts)) ≡ some calls
      → Any P xs
      → Any In calls
  calls-Any size xs call In h e found = elim (Option-cases (chunks size xs)) [
    | inl panic ↦ cc (rw panic at e)
    | inr (parts, cut) ↦
        let covered = Any-map (Any P) In call parts h (chunks-Any P size xs cut found) in
        let e' = rw cut at e in ground arith
  ]

pub insert_blocks-Any :
    (P : Block → Type 0) (scaled : ℕ → ℕ) (values : List Block) {calls : List Insertion}
    → insert_blocks scaled values ≡ some calls
    → Any P values
    → Any (InBlocks P) calls
unfolding insert_blocks
insert_blocks-Any P scaled values e found =
    calls-Any P (blocks_size scaled) values into_blocks (InBlocks P) (λ part h. h) e found

pub insert_block_parents-Any :
    (P : BlockParent → Type 0) (scaled : ℕ → ℕ) (values : List BlockParent) {calls : List Insertion}
    → insert_block_parents scaled values ≡ some calls
    → Any P values
    → Any (InBlockParent P) calls
unfolding insert_block_parents
insert_block_parents-Any P scaled values e found =
    calls-Any P (block_parents_size scaled) values into_block_parent (InBlockParent P) (λ part h. h)
      e found

pub insert_txs-Any :
    (P : Transaction → Type 0) (scaled : ℕ → ℕ) (values : List Transaction) (upsert_inputs : Bool)
    {calls : List Insertion}
    → insert_txs scaled values upsert_inputs ≡ some calls
    → Any P values
    → Any (InTransactions P) calls
unfolding insert_txs
insert_txs-Any P scaled values upsert_inputs e found =
    calls-Any P (txs_size scaled) (sort_by _ values) (λ part. into_transactions part upsert_inputs)
      (InTransactions P) (λ part h. h) e (sort_by-Any P _ values found)

pub insert_tx_addr-Any :
    (P : AddressTransaction → Type 0) (scaled : ℕ → ℕ) (values : List AddressTransaction)
    {calls : List Insertion}
    → insert_tx_addr scaled values ≡ some calls
    → Any P values
    → Any (InAddressesTransactions P) calls
unfolding insert_tx_addr
insert_tx_addr-Any P scaled values e found =
    calls-Any P (tx_addr_size scaled) (sort_by _ values) into_addresses_transactions
      (InAddressesTransactions P) (λ part h. h) e (sort_by-Any P _ values found)

pub insert_tx_script-Any :
    (P : ScriptTransaction → Type 0) (scaled : ℕ → ℕ) (values : List ScriptTransaction)
    {calls : List Insertion}
    → insert_tx_script scaled values ≡ some calls
    → Any P values
    → Any (InScriptsTransactions P) calls
unfolding insert_tx_script
insert_tx_script-Any P scaled values e found =
    calls-Any P (tx_script_size scaled) (sort_by _ values) into_scripts_transactions
      (InScriptsTransactions P) (λ part h. h) e (sort_by-Any P _ values found)

pub insert_transaction_acceptances-Any :
    (P : TransactionAcceptance → Type 0) (scaled : ℕ → ℕ) (values : List TransactionAcceptance)
    {calls : List Insertion}
    → insert_transaction_acceptances scaled values ≡ some calls
    → Any P values
    → Any (InAcceptances P) calls
unfolding insert_transaction_acceptances
insert_transaction_acceptances-Any P scaled values e found =
    calls-Any P (acceptances_size scaled) (sort_by _ values) into_transactions_acceptances
      (InAcceptances P) (λ part h. h) e (sort_by-Any P _ values found)
