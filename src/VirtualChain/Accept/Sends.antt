-- ===== src/VirtualChain/Accept/Sends.antt =====
-- What the collected rows become: statements that the database has accepted.
use simply_kaspa_indexer.Prelude.{
  ℕ, ◌≡◌, sym, subst, Bool, true, false, some, List, [], ◌++◌, All, Any, All-imp, inl, inr,
  Bool-cases, >>=-eq_some, some-injective,
}
use simply_kaspa_indexer.Models.{
  TransactionAcceptance, AddressTransaction, ScriptTransaction, address_transaction_eq,
  script_transaction_eq,
}
use simply_kaspa_indexer.Mapping.Rpc.{RpcOptionalTransaction}
use simply_kaspa_indexer.Database.Insert.{Insertion}
use simply_kaspa_indexer.Database.Batches.{insert_txs, insert_transaction_acceptances}
use simply_kaspa_indexer.Database.Batches.Cover.{Any-append_left, Any-append_right}
use simply_kaspa_indexer.Database.Batches.Calls.{
  InAcceptances, InAddressesTransactions, InScriptsTransactions, insert_transaction_acceptances-Any,
  insert_txs-Any, insert_tx_addr-Any, insert_tx_script-Any,
}
use simply_kaspa_indexer.Processing.{Event, send}
use simply_kaspa_indexer.Processing.Order.{Sent, send_lem, sent_Any}
use simply_kaspa_indexer.Processing.Transactions.Inserted.{SentRows}
use simply_kaspa_indexer.Processing.Transactions.Order.{Recalls}
use simply_kaspa_indexer.VirtualChain.Accept.{
  ChainBlock, Setup, Collected, disable_address_transactions, exclude_address, address_rows,
  script_rows, address_calls, accept_blocks, nothing_yet, accept_transactions,
}
use simply_kaspa_indexer.VirtualChain.Accept.Loops.{
  AllRows-imp, Carries, BlockAccepted, BlockAccepted-imp, Held, accept_blocks-BlockAccepted,
}

-- An accepted statement of the events holds the acceptance.
abbrev pub SentAcceptance : List Event → TransactionAcceptance → Type 0
SentAcceptance events row = Any (Sent (InAcceptances (λ x. row ≡ x))) events

-- Where the statements of a call are among the events.
send-Any :
    (In : Insertion → Type 0) (accepts : Insertion → Bool) (calls : List Insertion)
    {events : List Event}
    → send accepts calls ≡ some events
    → Any In calls
    → Any (Sent In) events
send-Any In accepts calls e h =
    subst (Any (Sent In)) (sym (send_lem accepts calls e)) (sent_Any In calls h)

module _ (setup : Setup) where
  no_address_rows :
      (t : RpcOptionalTransaction) {rows : List AddressTransaction}
      → exclude_address setup ≡ true
      → address_rows setup t ≡ some rows
      → [] ≡ rows
  unfolding address_rows
  no_address_rows t excluded e = elim (Bool-cases (disable_address_transactions setup)) [
    | inl off ↦ some-injective (rw off at e)
    | inr on ↦ some-injective (rw (on, excluded) at e)
  ]

  no_script_rows :
      (t : RpcOptionalTransaction) {rows : List ScriptTransaction}
      → exclude_address setup ≡ false
      → script_rows setup t ≡ some rows
      → [] ≡ rows
  unfolding script_rows
  no_script_rows t kept e = elim (Bool-cases (disable_address_transactions setup)) [
    | inl off ↦ some-injective (rw off at e)
    | inr on ↦ some-injective (rw (on, kept) at e)
  ]

  address_calls-Any :
      (s : Collected) (row : AddressTransaction) {calls : List Insertion}
      → address_calls setup s ≡ some calls
      → exclude_address setup ≡ false
      → Any (λ x. address_transaction_eq x row ≡ true) s.address_transactions
      → Any (InAddressesTransactions (λ x. address_transaction_eq x row ≡ true)) calls
  unfolding address_calls
  address_calls-Any s row e on =
      insert_tx_addr-Any (λ x. address_transaction_eq x row ≡ true) setup.scaled
        s.address_transactions (rw on at e)

  address_calls-Any_script :
      (s : Collected) (row : ScriptTransaction) {calls : List Insertion}
      → address_calls setup s ≡ some calls
      → exclude_address setup ≡ true
      → Any (λ x. script_transaction_eq x row ≡ true) s.script_transactions
      → Any (InScriptsTransactions (λ x. script_transaction_eq x row ≡ true)) calls
  unfolding address_calls
  address_calls-Any_script s row e off =
      insert_tx_script-Any (λ x. script_transaction_eq x row ≡ true) setup.scaled
        s.script_transactions (rw off at e)

  -- The statements for the three tables of rows account for what the variables hold.
  calls-Carries :
      (accepts : Insertion → Bool) (s : Collected) (calls calls' : List Insertion)
      (es fs : List Event)
      → insert_txs setup.scaled s.transactions true ≡ some calls
      → send accepts calls ≡ some es
      → address_calls setup s ≡ some calls'
      → send accepts calls' ≡ some fs
      → Carries setup (Held s) (SentRows (es ++ fs))
  calls-Carries accepts s calls calls' es fs cut e cut' e' t
        ((rows, r, all), (rows', r', all'), (rows'', r'', all'')) =
      (
        (
          rows,
          r,
          All-imp
              (λ row h. Any-append_left _ es fs (
                send-Any _ accepts calls e
                  (insert_txs-Any (λ x. row ≡ x) setup.scaled s.transactions true cut h)))
              rows all,
        ),
        (
          rows',
          r',
          (elim (Bool-cases (exclude_address setup)) [
            | inl off ↦ subst (All (SentRows (es ++ fs)).InAddress) (no_address_rows t off r') tt
            | inr on ↦
                All-imp
                  (λ row h.
                    Any-append_right _ es fs
                      (send-Any _ accepts calls' e' (address_calls-Any s row cut' on h)))
                  rows' all'
          ]),
        ),
        (
          rows'',
          r'',
          (elim (Bool-cases (exclude_address setup)) [
            | inl off ↦
                All-imp
                  (λ row h.
                    Any-append_right _ es fs
                      (send-Any _ accepts calls' e' (address_calls-Any_script s row cut' off h)))
                  rows'' all''
            | inr on ↦ subst (All (SentRows (es ++ fs)).InScript) (no_script_rows t on r'') tt
          ]),
        ),
      )

  later_rows : (gs es : List Event) → Carries setup (SentRows es) (SentRows (gs ++ es))
  later_rows gs es = AllRows-imp setup (record {
    tx_imp = λ row. Any-append_right _ gs es;
    address_imp = λ row. Any-append_right _ gs es;
    script_imp = λ row. Any-append_right _ gs es;
  })

-- Where the virtual chain's response is handled without a panic: each accepted transaction of each
-- chain block is a transfer within a group, or accepted statements hold its acceptance by that block
-- and the rows of a transaction with its id. The cache of ids must not know an id that was not
-- inserted.
pub accept_transactions-BlockAccepted :
    (setup : Setup) (time : ℕ → ℕ → ℕ) (accepts : Insertion → Bool) (blocks : List ChainBlock)
    {events : List Event}
    → Recalls setup.contains_key
    → accept_transactions setup time accepts blocks ≡ some events
    → All (BlockAccepted setup (SentAcceptance events) (SentRows events)) blocks
unfolding accept_transactions
accept_transactions-BlockAccepted setup time accepts blocks recalls e =
    let (s, collected, e1) = >>=-eq_some (accept_blocks setup time blocks nothing_yet) _ e in
    let (acceptances, cut, e2) =
      >>=-eq_some (insert_transaction_acceptances setup.scaled s.accepted_transactions) _ e1 in
    let (gs, sent0, e3) = >>=-eq_some (send accepts acceptances) _ e2 in
    let (calls, cut1, e4) = >>=-eq_some (insert_txs setup.scaled s.transactions true) _ e3 in
    let (es, sent1, e5) = >>=-eq_some (send accepts calls) _ e4 in
    let (calls', cut2, e6) = >>=-eq_some (address_calls setup s) _ e5 in
    let (fs, sent2, e7) = >>=-eq_some (send accepts calls') _ e6 in
    subst (λ events. All (BlockAccepted setup (SentAcceptance events) (SentRows events)) blocks)
      (some-injective e7)
      (All-imp
        (BlockAccepted-imp setup
          (λ row h. Any-append_left _ gs (es ++ fs) (
            send-Any _ accepts acceptances sent0 (
              insert_transaction_acceptances-Any (λ x. row ≡ x) setup.scaled s.accepted_transactions
                cut h)))
          (λ t h.
            later_rows setup gs (es ++ fs) t
              (calls-Carries setup accepts s calls calls' es fs cut1 sent1 cut2 sent2 t h)))
        blocks (accept_blocks-BlockAccepted setup recalls time blocks collected))
