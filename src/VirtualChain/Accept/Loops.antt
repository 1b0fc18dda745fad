-- ===== src/VirtualChain/Accept/Loops.antt =====
-- What the loops over the chain blocks collect: an acceptance for each transaction that is not left
-- out, and the rows of a transaction with its id.
use simply_kaspa_indexer.Prelude.{
  ℕ, suc, ◌≡◌, ◌⊎◌, refl, sym, subst, true, some, List, [], ◌∷◌, ◌++◌, Bytes, All, Any, All-imp,
  All-Any, All-Any_elim, inl, inr, Bool-cases, >>=-eq_some, some-injective,
}
use simply_kaspa_indexer.Models.{
  Transaction, TransactionAcceptance, AddressTransaction, ScriptTransaction, address_transaction_eq,
  script_transaction_eq,
}
use simply_kaspa_indexer.Mapping.Rpc.{RpcOptionalTransaction}
use simply_kaspa_indexer.Mapping.Mapper.{is_self_send_full}
use simply_kaspa_indexer.Database.Batches.Cover.{Any-append_left, Any-append_right}
use simply_kaspa_indexer.Processing.Transactions.{extend}
use simply_kaspa_indexer.Processing.Transactions.Order.{Recalls}
use simply_kaspa_indexer.Processing.Transactions.Cover.{Rows, RowsImp, RowsImp_trans}
use simply_kaspa_indexer.Processing.Transactions.RowSet.{
  extend_keeps, extend_has, address_transaction_eq_refl, script_transaction_eq_refl,
}
use simply_kaspa_indexer.VirtualChain.Accept.{
  ChainBlock, Setup, Collected, transaction_rows, address_rows, script_rows, id_of, add, accept_row,
  accept, accept_all, accept_blocks, nothing_yet,
}

module _ (setup : Setup) where
  abbrev pub AllRows : Rows → RpcOptionalTransaction → Type 0
  AllRows R t =
      ((rows : List Transaction) × (transaction_rows setup t ≡ some rows) × All R.InTx rows)
      × ((rows : List AddressTransaction) × (address_rows setup t ≡ some rows)
          × All R.InAddress rows)
      × ((rows : List ScriptTransaction) × (script_rows setup t ≡ some rows) × All R.InScript rows)

  -- The rows of some transaction with this id are accounted for.
  abbrev pub IdCovered : Rows → Bytes → Type 0
  IdCovered R id = (t : RpcOptionalTransaction) × (id_of t ≡ some id) × AllRows R t

  -- The transaction only moves funds within a group, or `A` holds of its acceptance by the block, and
  -- its id is covered.
  abbrev pub TxAccepted :
      (TransactionAcceptance → Type 0) → Rows → Bytes → RpcOptionalTransaction → Type 0
  TxAccepted A R block_hash t =
      (is_self_send_full setup.mapper t ≡ some true)
      ⊎ ((id : Bytes) × (id_of t ≡ some id) × A (accept_row block_hash id) × IdCovered R id)

  abbrev pub BlockAccepted : (TransactionAcceptance → Type 0) → Rows → ChainBlock → Type 0
  BlockAccepted A R b =
      (block_hash : Bytes) × (b.hash ≡ some block_hash)
      × All (TxAccepted A R block_hash) b.accepted_transactions

  abbrev pub Carries : Rows → Rows → Type 0
  Carries R R' = (t : RpcOptionalTransaction) → AllRows R t → AllRows R' t

  pub AllRows-imp : {R R' : Rows} → RowsImp R R' → Carries R R'
  AllRows-imp f t h = (
    (h.0.0, h.0.1, All-imp f.tx_imp h.0.0 h.0.2),
    (h.1.0, h.1.1, All-imp f.address_imp h.1.0 h.1.2),
    (h.2.0, h.2.1, All-imp f.script_imp h.2.0 h.2.2),
  )

  module _ {A A' : TransactionAcceptance → Type 0} {R R' : Rows}
      (a : (row : TransactionAcceptance) → A row → A' row) (f : Carries R R') where
    TxAccepted-imp :
        (block_hash : Bytes) (t : RpcOptionalTransaction)
        → TxAccepted A R block_hash t
        → TxAccepted A' R' block_hash t
    TxAccepted-imp block_hash t (inl left_out) = inl left_out
    TxAccepted-imp block_hash t (inr (id, own, row, (t', same, rows))) =
        inr (id, own, a (accept_row block_hash id) row, (t', same, f t' rows))

    pub BlockAccepted-imp : (b : ChainBlock) → BlockAccepted A R b → BlockAccepted A' R' b
    BlockAccepted-imp b h = (h.0, h.1, All-imp (TxAccepted-imp h.0) b.accepted_transactions h.2)

abbrev pub Held : Collected → Rows
Held s = record {
  InTx = λ row. Any (λ x. row ≡ x) s.transactions;
  InAddress = λ row. Any (λ x. address_transaction_eq x row ≡ true) s.address_transactions;
  InScript = λ row. Any (λ x. script_transaction_eq x row ≡ true) s.script_transactions;
}

abbrev pub HeldAcceptance : Collected → TransactionAcceptance → Type 0
HeldAcceptance s row = Any (λ x. row ≡ x) s.accepted_transactions

module _ (setup : Setup) where
  -- What a part of the loops does to the variables.
  record Adds (s s' : Collected) : Type 0 where
    accepted : (row : TransactionAcceptance) → HeldAcceptance s row → HeldAcceptance s' row
    kept : RowsImp (Held s) (Held s')
    ids : All (IdCovered setup (Held s')) s'.cached

  abbrev IdsCovered : Collected → Type 0
  IdsCovered s = All (IdCovered setup (Held s)) s.cached

  Adds_refl : (s : Collected) → IdsCovered s → Adds s s
  Adds_refl s h = record {
    accepted = λ row h. h;
    kept = record { tx_imp = λ row h. h; address_imp = λ row h. h; script_imp = λ row h. h };
    ids = h;
  }

  Adds_trans : (a b c : Collected) → Adds a b → Adds b c → Adds a c
  Adds_trans a b c f g = record {
    accepted = λ row h. g.accepted row (f.accepted row h);
    kept = RowsImp_trans f.kept g.kept;
    ids = g.ids;
  }

  add-Adds :
      (s : Collected) (t : RpcOptionalTransaction) (id : Bytes) {s' : Collected}
      → id_of t ≡ some id
      → add setup t id s ≡ some s'
      → IdsCovered s
      → Adds s s' × IdCovered setup (Held s') id
  unfolding add
  add-Adds s t id own e ids =
      let (rows, e1, r1) = >>=-eq_some (transaction_rows setup t) _ e in
      let (addresses, e2, r2) = >>=-eq_some (address_rows setup t) _ r1 in
      let (scripts, e3, r3) = >>=-eq_some (script_rows setup t) _ r2 in
      let added : Collected = record s {
        transactions = s.transactions ++ rows;
        address_transactions = extend address_transaction_eq s.address_transactions addresses;
        script_transactions = extend script_transaction_eq s.script_transactions scripts;
        cached = id ∷ s.cached;
      } in
      let kept : RowsImp (Held s) (Held added) = record {
        tx_imp = λ row. Any-append_left (λ x. row ≡ x) s.transactions rows;
        address_imp = λ row. extend_keeps _ address_transaction_eq s.address_transactions addresses;
        script_imp = λ row. extend_keeps _ script_transaction_eq s.script_transactions scripts;
      } in
      let own_rows : IdCovered setup (Held added) id = (
        t,
        own,
        (
          (
            rows,
            e1,
            All-imp (λ row. Any-append_right (λ x. row ≡ x) s.transactions rows) rows
                (All-Any rows),
          ),
          (
            addresses,
            e2,
            extend_has address_transaction_eq s.address_transactions addresses
                address_transaction_eq_refl,
          ),
          (
            scripts,
            e3,
            extend_has script_transaction_eq s.script_transactions scripts
                script_transaction_eq_refl,
          ),
        ),
      ) in
      subst (λ s'. Adds s s' × IdCovered setup (Held s') id) (some-injective r3)
        (
          record {
            accepted = λ row h. h;
            kept = kept;
            ids = (
              own_rows,
              All-imp (λ i (t', same, rows'). (t', same, AllRows-imp setup kept t' rows')) s.cached
                  ids,
            );
          },
          own_rows,
        )

module _ (setup : Setup) (recalls : Recalls setup.contains_key) where
  -- The transaction is accepted, as far as the variables hold the rows.
  abbrev TxHeld : Collected → Bytes → RpcOptionalTransaction → Type 0
  TxHeld s = TxAccepted setup (HeldAcceptance s) (Held s)

  note_acceptance :
      (s : Collected) (block_hash id : Bytes)
      → IdsCovered setup s
      → Adds setup s (record s {
        accepted_transactions = s.accepted_transactions ++ accept_row block_hash id ∷ [];
      })
  note_acceptance s block_hash id ids = record {
    accepted = λ row. Any-append_left (λ x. row ≡ x) s.accepted_transactions _;
    kept = record { tx_imp = λ row h. h; address_imp = λ row h. h; script_imp = λ row h. h };
    ids = ids;
  }

  accept-Adds :
      (now : ℕ) (block_hash : Bytes) (t : RpcOptionalTransaction) (s : Collected) {s' : Collected}
      → accept setup now block_hash t s ≡ some s'
      → IdsCovered setup s
      → Adds setup s s' × TxHeld s' block_hash t
  unfolding accept
  accept-Adds now block_hash t s {s'} e ids =
      let (self_send, found, e1) = >>=-eq_some (is_self_send_full setup.mapper t) _ e in
      elim (Bool-cases self_send) [
        | inl within ↦
            subst (λ s'. Adds setup s s' × TxHeld s' block_hash t)
              (some-injective (rw within at e1)) (Adds_refl setup s ids, inl (rw within at found))
        | inr counted ↦
            let (id, own, e2) = >>=-eq_some (id_of t) _ (rw counted at e1) in
            let noted : Collected = record s {
              accepted_transactions = s.accepted_transactions ++ accept_row block_hash id ∷ [];
            } in
            let adds = note_acceptance s block_hash id ids in
            let row : HeldAcceptance noted (accept_row block_hash id) =
              Any-append_right (λ x. accept_row block_hash id ≡ x) s.accepted_transactions _
                (inl refl) in
            elim (Bool-cases (setup.contains_key now s.cached id)) [
              | inl known ↦
                  subst (λ s'. Adds setup s s' × TxHeld s' block_hash t)
                    (some-injective (rw known at e2))
                    (
                      adds,
                      inr (
                        id,
                        own,
                        row,
                        All-Any_elim
                            (λ x covered same. subst (IdCovered setup (Held s)) (sym same) covered)
                            s.cached ids (recalls now s.cached id known),
                      ),
                    )
              | inr new ↦
                  let (more, covered) = add-Adds setup noted t id own (rw new at e2) ids in
                  (
                    Adds_trans setup s noted s' adds more,
                    inr (id, own, more.accepted (accept_row block_hash id) row, covered),
                  )
            ]
      ]

  accept_all-Adds :
      (time : ℕ → ℕ) (block_hash : Bytes) (ts : List RpcOptionalTransaction) (s : Collected)
      {s' : Collected}
      → accept_all setup time block_hash ts s ≡ some s'
      → IdsCovered setup s
      → Adds setup s s' × All (TxHeld s' block_hash) ts
  unfolding accept_all
  accept_all-Adds time block_hash [] s e ids =
      (subst (Adds setup s) (some-injective e) (Adds_refl setup s ids), tt)
  accept_all-Adds time block_hash (t ∷ ts) s {s'} e ids =
      let (u, first, rest) = >>=-eq_some (accept setup (time 0) block_hash t s) _ e in
      let (adds, held) = accept-Adds (time 0) block_hash t s first ids in
      let (adds', all) = accept_all-Adds (λ i. time (suc i)) block_hash ts u rest adds.ids in
      (
        Adds_trans setup s u s' adds adds',
        (TxAccepted-imp setup adds'.accepted (AllRows-imp setup adds'.kept) block_hash t held, all),
      )

  accept_blocks-Adds :
      (time : ℕ → ℕ → ℕ) (bs : List ChainBlock) (s : Collected) {s' : Collected}
      → accept_blocks setup time bs s ≡ some s'
      → IdsCovered setup s
      → Adds setup s s' × All (BlockAccepted setup (HeldAcceptance s') (Held s')) bs
  unfolding accept_blocks
  accept_blocks-Adds time [] s e ids =
      (subst (Adds setup s) (some-injective e) (Adds_refl setup s ids), tt)
  accept_blocks-Adds time (b ∷ bs) s {s'} e ids =
      let (block_hash, known, e1) = >>=-eq_some b.hash _ e in
      let (u, first, rest) =
        >>=-eq_some (accept_all setup (time 0) block_hash b.accepted_transactions s) _ e1 in
      let (adds, held) = accept_all-Adds (time 0) block_hash b.accepted_transactions s first ids in
      let (adds', all) = accept_blocks-Adds (λ i. time (suc i)) bs u rest adds.ids in
      (
        Adds_trans setup s u s' adds adds',
        (
          BlockAccepted-imp setup adds'.accepted (AllRows-imp setup adds'.kept) b
              (block_hash, known, held),
          all,
        ),
      )

  -- Each transaction of the blocks is accepted in the variables behind the loops.
  pub accept_blocks-BlockAccepted :
      (time : ℕ → ℕ → ℕ) (bs : List ChainBlock) {s : Collected}
      → accept_blocks setup time bs nothing_yet ≡ some s
      → All (BlockAccepted setup (HeldAcceptance s) (Held s)) bs
  accept_blocks-BlockAccepted time bs e = (accept_blocks-Adds time bs nothing_yet e tt).1
