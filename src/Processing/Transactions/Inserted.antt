-- ===== src/Processing/Transactions/Inserted.antt =====
-- The insertions of a commit hold the rows of the state.
use simply_kaspa_indexer.Prelude.{
  ◌≡◌, ◌⊎◌, sym, subst, Bool, true, false, some, List, [], ◌++◌, map, All, Any, All-imp, inl, inr,
  Bool-cases, >>=-eq_some, some-injective,
}
use simply_kaspa_indexer.Models.{
  AddressTransaction, ScriptTransaction, address_transaction_eq, script_transaction_eq,
}
use simply_kaspa_indexer.Mapping.Rpc.{RpcTransaction}
use simply_kaspa_indexer.Database.Insert.{Insertion}
use simply_kaspa_indexer.Database.Batches.{insert_txs}
use simply_kaspa_indexer.Database.Batches.Cover.{Any-append_left, Any-append_right}
use simply_kaspa_indexer.Database.Batches.Calls.{
  InTransactions, InAddressesTransactions, InScriptsTransactions, insert_txs-Any,
  insert_tx_addr-Any, insert_tx_script-Any,
}
use simply_kaspa_indexer.Processing.{Event, sent, send}
use simply_kaspa_indexer.Processing.Order.{
  Sent, after, Any-after, Any-after_earlier, send_lem, sent_Any,
}
use simply_kaspa_indexer.Processing.Transactions.{
  Setup, disable_address_transactions, State, exclude_address, address_rows, script_rows,
  address_calls, insert_rows,
}
use simply_kaspa_indexer.Processing.Transactions.Cover.{Rows, Carries}
use simply_kaspa_indexer.Processing.Transactions.Pending.{Waiting}

-- The rows that accepted statements of the events so far hold, up to the equality of the rows.
abbrev pub SentRows : List Event → Rows
SentRows seen = record {
  InTx = λ row. Any (Sent (InTransactions (λ x. row ≡ x))) seen;
  InAddress =
      λ row. Any (Sent (InAddressesTransactions (λ x. address_transaction_eq x row ≡ true))) seen;
  InScript =
      λ row. Any (Sent (InScriptsTransactions (λ x. script_transaction_eq x row ≡ true))) seen;
}

module _ (In : Insertion → Type 0) where
  in_first :
      (calls calls' : List Insertion) (events : List Event)
      → events ≡ map sent calls ++ map sent calls'
      → Any In calls
      → Any (Sent In) events
  in_first calls calls' events done h =
      subst (Any (Sent In)) (sym done)
        (Any-append_left (Sent In) (map sent calls) _ (sent_Any In calls h))

  in_second :
      (calls calls' : List Insertion) (events : List Event)
      → events ≡ map sent calls ++ map sent calls'
      → Any In calls'
      → Any (Sent In) events
  in_second calls calls' events done h =
      subst (Any (Sent In)) (sym done)
        (Any-append_right (Sent In) (map sent calls) _ (sent_Any In calls' h))

sent_or_earlier :
    {W : Type 0} (P : Event → Type 0) (events seen : List Event)
    → (W → Any P events)
    → W ⊎ Any P seen
    → Any P (after events seen)
sent_or_earlier P events seen f (inl waiting) = Any-after P events seen (f waiting)
sent_or_earlier P events seen f (inr was) = Any-after_earlier P events seen was

module _ (setup : Setup) where
  pub insert_rows_lem :
      (accepts : Insertion → Bool) (s : State) {events : List Event}
      → insert_rows setup accepts s ≡ some events
      → (calls : List Insertion) × (calls' : List Insertion) × (insert_txs setup.scaled
            s.transactions false
          ≡ some calls)
        × (address_calls setup s ≡ some calls')
        × (events ≡ map sent calls ++ map sent calls')
  unfolding insert_rows
  insert_rows_lem accepts s e =
      let (calls, cut, e1) = >>=-eq_some (insert_txs setup.scaled s.transactions false) _ e in
      let (of_transactions, sent1, e2) = >>=-eq_some (send accepts calls) _ e1 in
      let (calls', cut', e3) = >>=-eq_some (address_calls setup s) _ e2 in
      let (of_addresses, sent2, e4) = >>=-eq_some (send accepts calls') _ e3 in
      (
        calls,
        calls',
        cut,
        cut',
        cc (some-injective e4, send_lem accepts calls sent1, send_lem accepts calls' sent2),
      )

  no_address_rows :
      (t : RpcTransaction) {rows : List AddressTransaction}
      → exclude_address setup ≡ true
      → address_rows setup t ≡ some rows
      → [] ≡ rows
  unfolding address_rows
  no_address_rows t excluded e = elim (Bool-cases (disable_address_transactions setup)) [
    | inl off ↦ some-injective (rw off at e)
    | inr on ↦ some-injective (rw (on, excluded) at e)
  ]

  no_script_rows :
      (t : RpcTransaction) {rows : List ScriptTransaction}
      → exclude_address setup ≡ false
      → script_rows setup t ≡ some rows
      → [] ≡ rows
  unfolding script_rows
  no_script_rows t kept e = elim (Bool-cases (disable_address_transactions setup)) [
    | inl off ↦ some-injective (rw off at e)
    | inr on ↦ some-injective (rw (on, kept) at e)
  ]

  address_calls-Any :
      (s : State) (row : AddressTransaction) {calls : List Insertion}
      → address_calls setup s ≡ some calls
      → exclude_address setup ≡ false
      → Any (λ x. address_transaction_eq x row ≡ true) s.tx_address_transactions
      → Any (InAddressesTransactions (λ x. address_transaction_eq x row ≡ true)) calls
  unfolding address_calls
  address_calls-Any s row e on =
      insert_tx_addr-Any (λ x. address_transaction_eq x row ≡ true) setup.scaled
        s.tx_address_transactions (rw on at e)

  script_calls_Any :
      (s : State) (row : ScriptTransaction) {calls : List Insertion}
      → address_calls setup s ≡ some calls
      → exclude_address setup ≡ true
      → Any (λ x. script_transaction_eq x row ≡ true) s.tx_script_transactions
      → Any (InScriptsTransactions (λ x. script_transaction_eq x row ≡ true)) calls
  unfolding address_calls
  script_calls_Any s row e off =
      insert_tx_script-Any (λ x. script_transaction_eq x row ≡ true) setup.scaled
        s.tx_script_transactions (rw off at e)

  -- The insertions of a commit account for all rows that wait.
  pub insert_rows-Carries :
      (accepts : Insertion → Bool) (s : State) (seen events : List Event)
      → insert_rows setup accepts s ≡ some events
      → Carries setup (Waiting (SentRows seen) s) (SentRows (after events seen))
  insert_rows-Carries accepts s seen events e t
        ((rows, r, all), (rows', r', all'), (rows'', r'', all'')) =
      let (calls, calls', cut, cut', done) = insert_rows_lem accepts s e in
      (
        (
          rows,
          r,
          All-imp
              (λ row. sent_or_earlier _ events seen (λ waiting.
                in_first _ calls calls' events done
                  (insert_txs-Any (λ x. row ≡ x) setup.scaled s.transactions false cut waiting)))
              rows all,
        ),
        (
          rows',
          r',
          (elim (Bool-cases (exclude_address setup)) [
            | inl off ↦
                subst (All (SentRows (after events seen)).InAddress) (no_address_rows t off r') tt
            | inr on ↦
                All-imp
                  (λ row. sent_or_earlier _ events seen (λ waiting.
                    in_second _ calls calls' events done (address_calls-Any s row cut' on waiting)))
                  rows' all'
          ]),
        ),
        (
          rows'',
          r'',
          (elim (Bool-cases (exclude_address setup)) [
            | inl off ↦
                All-imp
                  (λ row. sent_or_earlier _ events seen (λ waiting.
                    in_second _ calls calls' events done (script_calls_Any s row cut' off waiting)))
                  rows'' all''
            | inr on ↦
                subst (All (SentRows (after events seen)).InScript) (no_script_rows t on r'') tt
          ]),
        ),
      )
