-- ===== src/Processing/Transactions/Pending.antt =====
-- What waits in the state of the transaction processor: the rows of every block that waits to be
-- reported, as far as they are not inserted yet.
use simply_kaspa_indexer.Prelude.{
  ◌∙◌, All-Any_elim, ℕ, suc, ◌≡◌, ◌⊎◌, refl, sym, subst, true, some, List, [], ◌∷◌, ◌++◌, Bytes,
  All, Any, All-imp, All-Any, All-append, inl, inr, Bool-cases, >>=-eq_some, some-injective,
}
use simply_kaspa_indexer.Models.{
  Transaction, AddressTransaction, ScriptTransaction, address_transaction_eq, script_transaction_eq,
}
use simply_kaspa_indexer.Mapping.Rpc.{RpcTransaction}
use simply_kaspa_indexer.Mapping.Mapper.{is_self_send_outputs_only}
use simply_kaspa_indexer.Database.Batches.Cover.{Any-append_left, Any-append_right}
use simply_kaspa_indexer.Processing.Transactions.{
  TransactionData, Setup, State, extend, transaction_rows, address_rows, script_rows, admits, add,
  admit, take_in, take_all, receive, Round,
}
use simply_kaspa_indexer.Processing.Transactions.Cover.{
  Rows, RowsImp, RowsImp_trans, AllRows-imp, HasId, IdCovered, TxCovered, TxCovered-imp,
  IdCovered-imp, CoveredBy, CoveredBy-imp,
}
use simply_kaspa_indexer.Processing.Transactions.RowSet.{
  extend_keeps, extend_has, address_transaction_eq_refl, script_transaction_eq_refl,
}

-- The rows that wait in the state, or are in `E` already. A row of an `IndexSet` stands for those
-- that equal it.
abbrev pub Waiting : Rows → State → Rows
Waiting E s = record {
  InTx = λ row. Any (λ x. row ≡ x) s.transactions ⊎ E.InTx row;
  InAddress = λ row.
      Any (λ x. address_transaction_eq x row ≡ true) s.tx_address_transactions ⊎ E.InAddress row;
  InScript = λ row.
      Any (λ x. script_transaction_eq x row ≡ true) s.tx_script_transactions ⊎ E.InScript row;
}

or_imp : {A B C : Type 0} → (A → B) → A ⊎ C → B ⊎ C
or_imp f (inl a) = inl (f a)
or_imp f (inr c) = inr c

module _ (setup : Setup) (E : Rows) where
  -- What handling a transaction does to the state.
  record Adds (s s' : State) : Type 0 where
    kept : RowsImp (Waiting E s) (Waiting E s')
    ids : All (IdCovered setup (Waiting E s')) s'.cached
    same : s'.checkpoint_blocks ≡ s.checkpoint_blocks

  -- Every block that waits, and every id in the cache, has its rows in the state or in `E`.
  pub record Inv (In : TransactionData → Type 0) (s : State) : Type 0 where
    pub ids_covered : All (IdCovered setup (Waiting E s)) s.cached
    pub blocks_covered : All (CoveredBy setup In (Waiting E s)) s.checkpoint_blocks

  Adds_refl : (s : State) → All (IdCovered setup (Waiting E s)) s.cached → Adds s s
  Adds_refl s h = record {
    kept = record { tx_imp = λ row h. h; address_imp = λ row h. h; script_imp = λ row h. h };
    ids = h;
    same = refl;
  }

  added :
      (s : State) (t : RpcTransaction) (id : Bytes) {rows : List Transaction}
      {addresses : List AddressTransaction} {scripts : List ScriptTransaction}
      → HasId id t
      → transaction_rows setup t ≡ some rows
      → address_rows setup t ≡ some addresses
      → script_rows setup t ≡ some scripts
      → All (IdCovered setup (Waiting E s)) s.cached
      → Adds s (record s {
        transactions = s.transactions ++ rows;
        tx_address_transactions = extend address_transaction_eq s.tx_address_transactions addresses;
        tx_script_transactions = extend script_transaction_eq s.tx_script_transactions scripts;
        cached = id ∷ s.cached;
      })
  added s t id {rows} {addresses} {scripts} own e e' e'' ids =
      let imp : RowsImp (Waiting E s) (
          Waiting E (record s {
            transactions = s.transactions ++ rows;
            tx_address_transactions =
                extend address_transaction_eq s.tx_address_transactions addresses;
            tx_script_transactions = extend script_transaction_eq s.tx_script_transactions scripts;
            cached = id ∷ s.cached;
          })) =
        record {
          tx_imp = λ row. or_imp (Any-append_left (λ x. row ≡ x) s.transactions rows);
          address_imp = λ row.
              or_imp (extend_keeps _ address_transaction_eq s.tx_address_transactions addresses);
          script_imp =
              λ row. or_imp (extend_keeps _ script_transaction_eq s.tx_script_transactions scripts);
        } in
      record {
        kept = imp;
        ids = (
          (
            t,
            own,
            (
              (
                rows,
                e,
                All-imp
                    (λ row member. inl (Any-append_right (λ x. row ≡ x) s.transactions rows member))
                    rows (All-Any rows),
              ),
              (
                addresses,
                e',
                All-imp (λ row member. inl member) addresses
                    (extend_has address_transaction_eq s.tx_address_transactions addresses
                      address_transaction_eq_refl),
              ),
              (
                scripts,
                e'',
                All-imp (λ row member. inl member) scripts
                    (extend_has script_transaction_eq s.tx_script_transactions scripts
                      script_transaction_eq_refl),
              ),
            ),
          ),
          All-imp (λ i. IdCovered-imp setup i (AllRows-imp setup imp)) s.cached ids,
        );
        same = refl;
      }

  add-Adds :
      (s : State) (t : RpcTransaction) (id : Bytes) {s' : State}
      → HasId id t
      → add setup t id s ≡ some s'
      → All (IdCovered setup (Waiting E s)) s.cached
      → Adds s s' × IdCovered setup (Waiting E s') id
  unfolding add
  add-Adds s t id own e ids =
      let (rows, e1, r1) = >>=-eq_some (transaction_rows setup t) _ e in
      let (addresses, e2, r2) = >>=-eq_some (address_rows setup t) _ r1 in
      let (scripts, e3, r3) = >>=-eq_some (script_rows setup t) _ r2 in
      let adds = added s t id own e1 e2 e3 ids in
      subst (λ s'. Adds s s' × IdCovered setup (Waiting E s') id) (some-injective r3)
        (adds, adds.ids.0)

module _ (setup : Setup) (E : Rows)
    (recalls : (now : ℕ) (ids : List Bytes) (id : Bytes)
      → setup.contains_key now ids id ≡ true
      → Any (λ x. id ≡ x) ids) where
  admit-Adds :
      (now : ℕ) (t : RpcTransaction) (s : State) {s' : State}
      → admit setup now t s ≡ some s'
      → All (IdCovered setup (Waiting E s)) s.cached
      → Adds setup E s s' × TxCovered setup (Waiting E s') t
  unfolding admit
  admit-Adds now t s e ids =
      let (v, found, e1) = >>=-eq_some t.verbose_data _ e in
      let own : HasId v.transaction_id t = rw found refl in
      elim (Bool-cases (setup.contains_key now s.cached v.transaction_id)) [
        | inl known ↦
            subst (λ s'. Adds setup E s s' × TxCovered setup (Waiting E s') t)
              (some-injective (rw known at e1))
              (
                Adds_refl setup E s ids,
                inr (
                  v.transaction_id,
                  own,
                  All-Any_elim
                      (λ x covered same. subst (IdCovered setup (Waiting E s)) (sym same) covered)
                      s.cached ids (recalls now s.cached v.transaction_id known),
                ),
              )
        | inr new ↦
            let (adds, covered) = add-Adds setup E s t v.transaction_id own (rw new at e1) ids in
            (adds, inr (v.transaction_id, own, covered))
      ]

  take_in-Adds :
      (now : ℕ) (t : RpcTransaction) (s : State) {s' : State}
      → take_in setup now t s ≡ some s'
      → All (IdCovered setup (Waiting E s)) s.cached
      → Adds setup E s s' × TxCovered setup (Waiting E s') t
  unfolding take_in
  take_in-Adds now t s e ids =
      let (self_send, found, e1) = >>=-eq_some (is_self_send_outputs_only setup.mapper t) _ e in
      elim (Bool-cases self_send) [
        | inl yes_ ↦
            subst (λ s'. Adds setup E s s' × TxCovered setup (Waiting E s') t)
              (some-injective (rw yes_ at e1))
              (Adds_refl setup E s ids, inl (inl (rw yes_ at found)))
        | inr no_ ↦ elim (Bool-cases (admits setup t)) [
          | inl let_in ↦ admit-Adds now t s (rw (no_, let_in) at e1) ids
          | inr left_out ↦
              subst (λ s'. Adds setup E s s' × TxCovered setup (Waiting E s') t)
                (some-injective (rw (no_, left_out) at e1))
                (Adds_refl setup E s ids, inl (inr left_out))
        ]
      ]

  Adds_trans : (a b c : State) → Adds setup E a b → Adds setup E b c → Adds setup E a c
  Adds_trans a b c f g = record {
    kept = RowsImp_trans f.kept g.kept;
    ids = g.ids;
    same = g.same ∙ f.same;
  }

  take_all-Adds :
      (time : ℕ → ℕ) (i : ℕ) (ts : List RpcTransaction) (s : State) {s' : State}
      → take_all setup time i ts s ≡ some s'
      → All (IdCovered setup (Waiting E s)) s.cached
      → Adds setup E s s' × All (TxCovered setup (Waiting E s')) ts
  unfolding take_all
  take_all-Adds time i [] s e ids =
      (subst (Adds setup E s) (some-injective e) (Adds_refl setup E s ids), tt)
  take_all-Adds time i (t ∷ ts) s {s'} e ids =
      let (u, taken, rest) = >>=-eq_some (take_in setup (time i) t s) _ e in
      let (adds, covered) = take_in-Adds (time i) t s taken ids in
      let (adds', all) = take_all-Adds time (suc i) ts u rest adds.ids in
      (
        Adds_trans s u s' adds adds',
        (TxCovered-imp setup t (AllRows-imp setup adds'.kept) covered, all),
      )

  pub receive-Inv :
      (In : TransactionData → Type 0) (r : Round) (s : State) {s' : State}
      → In r.transaction_data
      → receive setup r s ≡ some s'
      → Inv setup E In s
      → Inv setup E In s'
  unfolding receive
  receive-Inv In r s {s'} here e v =
      let (adds, all) =
        take_all-Adds r.lookup_time 0 r.transaction_data.transactions _ e v.ids_covered in
      record {
        ids_covered = adds.ids;
        blocks_covered = subst (All (CoveredBy setup In (Waiting E s'))) (sym adds.same) (
            All-append _ s.checkpoint_blocks _
              (All-imp (λ c. CoveredBy-imp setup In c (AllRows-imp setup adds.kept))
                s.checkpoint_blocks v.blocks_covered)
              ((r.transaction_data, here, refl, all), tt));
      }
