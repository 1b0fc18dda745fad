-- ===== src/Processing/Transactions/Cover.antt =====
-- When the rows of a block count as accounted for, in whichever way its tables are read.
use simply_kaspa_indexer.Prelude.{
  ◌≡◌, ◌⊎◌, true, false, some, List, Bytes, All, All-imp, inl, inr, ◌>>=◌,
}
use simply_kaspa_indexer.Models.{Transaction, AddressTransaction, ScriptTransaction}
use simply_kaspa_indexer.Checkpoint.{CheckpointBlock}
use simply_kaspa_indexer.Mapping.Rpc.{RpcTransaction}
use simply_kaspa_indexer.Mapping.Mapper.{is_self_send_outputs_only}
use simply_kaspa_indexer.Processing.Transactions.{
  TransactionData, Setup, checkpoint_of, transaction_rows, address_rows, script_rows, admits,
}

-- The rows of the three tables that are accounted for, by a predicate each.
pub record Rows : Type 1 where
  pub InTx : Transaction → Type 0
  pub InAddress : AddressTransaction → Type 0
  pub InScript : ScriptTransaction → Type 0

pub record RowsImp (R R' : Rows) : Type 0 where
  pub tx_imp : (row : Transaction) → R.InTx row → R'.InTx row
  pub address_imp : (row : AddressTransaction) → R.InAddress row → R'.InAddress row
  pub script_imp : (row : ScriptTransaction) → R.InScript row → R'.InScript row

pub RowsImp_trans : {R R' R'' : Rows} → RowsImp R R' → RowsImp R' R'' → RowsImp R R''
RowsImp_trans f g = record {
  tx_imp = λ row h. g.tx_imp row (f.tx_imp row h);
  address_imp = λ row h. g.address_imp row (f.address_imp row h);
  script_imp = λ row h. g.script_imp row (f.script_imp row h);
}

-- The transaction `t` has the id `id`.
abbrev pub HasId : Bytes → RpcTransaction → Type 0
HasId id t = (t.verbose_data >>= λ v. some v.transaction_id) ≡ some id

module _ (setup : Setup) where
  abbrev pub AllRows : Rows → RpcTransaction → Type 0
  AllRows R t =
      ((rows : List Transaction) × (transaction_rows setup t ≡ some rows) × All R.InTx rows)
      × ((rows : List AddressTransaction) × (address_rows setup t ≡ some rows)
          × All R.InAddress rows)
      × ((rows : List ScriptTransaction) × (script_rows setup t ≡ some rows) × All R.InScript rows)

  -- The rows of some transaction with this id are accounted for.
  abbrev pub IdCovered : Rows → Bytes → Type 0
  IdCovered R id = (t : RpcTransaction) × HasId id t × AllRows R t

  -- The transaction is left out: it only moves funds within a group, or the options say so.
  abbrev pub IsLeftOut : RpcTransaction → Type 0
  IsLeftOut t = (is_self_send_outputs_only setup.mapper t ≡ some true) ⊎ (admits setup t ≡ false)

  abbrev pub TxCovered : Rows → RpcTransaction → Type 0
  TxCovered R t = IsLeftOut t ⊎ ((id : Bytes) × HasId id t × IdCovered R id)

  pub AllRows-imp : {R R' : Rows} → RowsImp R R' → (t : RpcTransaction) → AllRows R t → AllRows R' t
  AllRows-imp f t h = (
    (h.0.0, h.0.1, All-imp f.tx_imp h.0.0 h.0.2),
    (h.1.0, h.1.1, All-imp f.address_imp h.1.0 h.1.2),
    (h.2.0, h.2.1, All-imp f.script_imp h.2.0 h.2.2),
  )

  -- Each way to account for rows that `R` accounts for.
  abbrev pub Carries : Rows → Rows → Type 0
  Carries R R' = (t : RpcTransaction) → AllRows R t → AllRows R' t

  pub IdCovered-imp : {R R' : Rows} (id : Bytes) → Carries R R' → IdCovered R id → IdCovered R' id
  IdCovered-imp id f (t, same, rows) = (t, same, f t rows)

  pub TxCovered-imp :
      {R R' : Rows} (t : RpcTransaction) → Carries R R' → TxCovered R t → TxCovered R' t
  TxCovered-imp t f (inl left_out) = inl left_out
  TxCovered-imp t f (inr (id, own, covered)) = inr (id, own, IdCovered-imp id f covered)

-- `In` holds of the blocks that arrive, and `c` is the checkpoint of such a block whose transactions are
-- all covered.
module _ (setup : Setup) (In : TransactionData → Type 0) where
  abbrev pub CoveredBy : Rows → CheckpointBlock → Type 0
  CoveredBy R c =
      (d : TransactionData) × In d × (checkpoint_of d ≡ c) × All (TxCovered setup R) d.transactions

  pub CoveredBy-imp :
      {R R' : Rows} (c : CheckpointBlock) → Carries setup R R' → CoveredBy R c → CoveredBy R' c
  CoveredBy-imp c f h = (h.0, h.1, h.2, All-imp (λ t. TxCovered-imp setup t f) h.0.transactions h.3)
