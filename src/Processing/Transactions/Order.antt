-- ===== src/Processing/Transactions/Order.antt =====
-- A block is reported only behind the rows of its transactions.
use simply_kaspa_indexer.Prelude.{
  Any-imp, ℕ, ◌≡◌, ◌⊎◌, refl, sym, ap, subst, Bool, true, some, List, [], ◌∷◌, ◌++◌, map, Bytes,
  All, Any, All-imp, All-Any, inl, inr, Bool-cases, >>=-eq_some, some-injective,
}
use simply_kaspa_indexer.Checkpoint.{CheckpointBlock}
use simply_kaspa_indexer.Mapping.Rpc.{RpcTransaction}
use simply_kaspa_indexer.Database.Insert.{Insertion}
use simply_kaspa_indexer.Processing.{Event, sent, reported, last, metrics_block}
use simply_kaspa_indexer.Processing.Order.{
  after_append, after, Any-after_earlier, Ordered, Ordered-append, Ordered-sent, Ordered-reported,
}
use simply_kaspa_indexer.Processing.Transactions.{
  TransactionData, Setup, State, Round, init, disable_rejected_transactions, receive, is_due,
  wait_for_vcp, insert_rows, emptied, finish, commit, step, process_transactions,
}
use simply_kaspa_indexer.Processing.Transactions.Cover.{
  Rows, RowsImp, AllRows-imp, IdCovered, TxCovered, IdCovered-imp, CoveredBy, CoveredBy-imp,
}
use simply_kaspa_indexer.Processing.Transactions.Pending.{Waiting, Inv, receive-Inv}
use simply_kaspa_indexer.Processing.Transactions.Inserted.{
  SentRows, insert_rows_lem, insert_rows-Carries,
}

SentRows_mono : (es seen : List Event) → RowsImp (SentRows seen) (SentRows (after es seen))
SentRows_mono es seen = record {
  tx_imp = λ row. Any-after_earlier _ es seen;
  address_imp = λ row. Any-after_earlier _ es seen;
  script_imp = λ row. Any-after_earlier _ es seen;
}

or_imp_right : {A B C : Type 0} → (B → C) → A ⊎ B → A ⊎ C
or_imp_right f (inl a) = inl a
or_imp_right f (inr b) = inr (f b)

Waiting_mono :
    (s : State) (es seen : List Event)
    → RowsImp (Waiting (SentRows seen) s) (Waiting (SentRows (after es seen)) s)
Waiting_mono s es seen = record {
  tx_imp = λ row. or_imp_right (Any-after_earlier _ es seen);
  address_imp = λ row. or_imp_right (Any-after_earlier _ es seen);
  script_imp = λ row. or_imp_right (Any-after_earlier _ es seen);
}

Waiting_sent : (R : Rows) (s : State) → RowsImp R (Waiting R s)
Waiting_sent R s = record {
  tx_imp = λ row h. inr h;
  address_imp = λ row h. inr h;
  script_imp = λ row h. inr h;
}

-- `In` holds of the blocks that arrive.
module _ (setup : Setup) (In : TransactionData → Type 0) where
  -- The statements of the events so far have inserted the rows of the block's transactions.
  abbrev pub TxsSent : List Event → CheckpointBlock → Type 0
  TxsSent seen = CoveredBy setup In (SentRows seen)

  abbrev InvAt : List Event → State → Type 0
  InvAt seen s = Inv setup (SentRows seen) In s

  TxsSent-mono :
      (seen : List Event) (e : Event) (c : CheckpointBlock) → TxsSent seen c → TxsSent (e ∷ seen) c
  TxsSent-mono seen e c = CoveredBy-imp setup In c (AllRows-imp setup (SentRows_mono (e ∷ []) seen))

  All-left_out :
      (R : Rows) (ts : List RpcTransaction)
      → disable_rejected_transactions setup ≡ true
      → All (TxCovered setup R) ts
  All-left_out R [] off = tt
  All-left_out R (t ∷ ts) off = (inl (inr (rw off refl)), All-left_out R ts off)

  finish-Ordered :
      (r : Round) (c : CheckpointBlock) (s : State) (seen : List Event) {s' : State}
      {reports : List Event}
      → finish setup r c s ≡ some (s', reports)
      → All (TxsSent seen) s.checkpoint_blocks
      → All (IdCovered setup (Waiting (SentRows seen) s)) s.cached
      → InvAt (after reports seen) s' × Ordered TxsSent seen reports
  unfolding finish
  finish-Ordered r c s seen e blocks ids =
      let (shown, _, done) = >>=-eq_some (metrics_block setup.datable c) _ e in
      subst (λ p. InvAt (after p.1 seen) p.0 × Ordered TxsSent seen p.1) (some-injective done)
        (
          record {
            ids_covered =
                All-imp
                  (λ id.
                    IdCovered-imp setup id
                      (AllRows-imp setup (Waiting_mono s (map reported s.checkpoint_blocks) seen)))
                  s.cached ids;
            blocks_covered = tt;
          },
          Ordered-reported TxsSent seen s.checkpoint_blocks TxsSent-mono blocks,
        )

  insert_rows-Ordered :
      (accepts : Insertion → Bool) (s : State) (seen : List Event) {events : List Event}
      → insert_rows setup accepts s ≡ some events
      → Ordered TxsSent seen events
  insert_rows-Ordered accepts s seen e =
      let (calls, calls', cut, cut', done) = insert_rows_lem setup accepts s e in
      subst (Ordered TxsSent seen) (sym done) (
        Ordered-append TxsSent seen (map sent calls) (map sent calls')
          (Ordered-sent TxsSent seen calls)
          (Ordered-sent TxsSent (after (map sent calls) seen) calls'))

  -- The two ways to commit.
  report_only :
      (r : Round) (c : CheckpointBlock) (s : State) (seen : List Event) {s' : State}
      {events : List Event}
      → disable_rejected_transactions setup ≡ true
      → finish setup r c s ≡ some (s', events)
      → InvAt seen s
      → InvAt (after events seen) s' × Ordered TxsSent seen events
  report_only r c s seen off e v =
      finish-Ordered r c s seen e
        (All-imp (λ c h. (h.0, h.1, h.2, All-left_out (SentRows seen) h.0.transactions off))
          s.checkpoint_blocks v.blocks_covered)
        v.ids_covered

  insert_and_report :
      (r : Round) (c : CheckpointBlock) (s : State) (seen inserted : List Event) {s' : State}
      {reports : List Event}
      → insert_rows setup r.accepts s ≡ some inserted
      → finish setup r c (emptied s) ≡ some (s', reports)
      → InvAt seen s
      → InvAt (after (inserted ++ reports) seen) s' × Ordered TxsSent seen (inserted ++ reports)
  insert_and_report r c s seen inserted {s'} {reports} done e v =
      let carries = insert_rows-Carries setup r.accepts s seen inserted done in
      let (v', ordered) =
        finish-Ordered r c (emptied s) (after inserted seen) e
          (All-imp (λ c. CoveredBy-imp setup In c carries) s.checkpoint_blocks v.blocks_covered)
          (All-imp
            (λ id h.
              IdCovered-imp setup id
                (AllRows-imp setup (Waiting_sent (SentRows (after inserted seen)) (emptied s)))
                (IdCovered-imp setup id carries h))
            s.cached v.ids_covered) in
      (
        subst (λ seen. InvAt seen s') (sym (after_append inserted reports seen)) v',
        Ordered-append TxsSent seen inserted reports (insert_rows-Ordered r.accepts s seen done)
            ordered,
      )

  commit-Ordered :
      (r : Round) (s : State) (seen : List Event) {again : Bool} {s' : State} {events : List Event}
      → commit setup r s ≡ some (again, s', events)
      → InvAt seen s
      → InvAt (after events seen) s' × Ordered TxsSent seen events
  unfolding commit
  commit-Ordered r s seen e v =
      let (c, _, e1) = >>=-eq_some (last s.checkpoint_blocks) _ e in
      elim (Bool-cases (disable_rejected_transactions setup)) [
        | inl off ↦
            let ((t, reports), done, e2) = >>=-eq_some (finish setup r c s) _ (rw off at e1) in
            subst (λ p. InvAt (after p.2 seen) p.1 × Ordered TxsSent seen p.2) (some-injective e2)
              (report_only r c s seen off done v)
        | inr on ↦ elim (Bool-cases (wait_for_vcp setup.net_bps c.daa_score r.polls)) [
          | inl ready ↦
              let (inserted, done, e2) =
                >>=-eq_some (insert_rows setup r.accepts s) _ (rw (on, ready) at e1) in
              let ((t, reports), done', e3) = >>=-eq_some (finish setup r c (emptied s)) _ e2 in
              subst (λ p. InvAt (after p.2 seen) p.1 × Ordered TxsSent seen p.2) (some-injective e3)
                (insert_and_report r c s seen inserted done done' v)
          | inr early ↦
              subst (λ p. InvAt (after p.2 seen) p.1 × Ordered TxsSent seen p.2)
                (some-injective (rw (on, early) at e1)) (v, tt)
        ]
      ]

-- moka's `contains_key` is true only for a key that was inserted.
abbrev pub Recalls : (ℕ → List Bytes → Bytes → Bool) → Type 0
Recalls contains_key =
    (now : ℕ) (ids : List Bytes) (id : Bytes)
    → contains_key now ids id ≡ true
    → Any (λ x. id ≡ x) ids

module _ (setup : Setup) (recalls : Recalls setup.contains_key)
    (In : TransactionData → Type 0) where
  step-Ordered :
      (r : Round) (s : State) (seen : List Event) {again : Bool} {s' : State} {events : List Event}
      → In r.transaction_data
      → step setup r s ≡ some (again, s', events)
      → InvAt setup In seen s
      → InvAt setup In (after events seen) s' × Ordered (TxsSent setup In) seen events
  unfolding step
  step-Ordered r s seen here e v =
      let (t, received, e1) = >>=-eq_some (receive setup r s) _ e in
      let v' = receive-Inv setup (SentRows seen) recalls In r s here received v in
      elim (Bool-cases (is_due setup r.check_time t)) [
        | inl due ↦ commit-Ordered setup In r t seen (rw due at e1) v'
        | inr early ↦
            subst (λ p. InvAt setup In (after p.2 seen) p.1 × Ordered (TxsSent setup In) seen p.2)
              (some-injective (rw early at e1)) (v', tt)
      ]

  process_transactions-Ordered_from :
      (rs : List Round) (s : State) (seen : List Event) {s' : State} {events : List Event}
      → All (λ (r : Round). In r.transaction_data) rs
      → process_transactions setup rs s ≡ some (s', events)
      → InvAt setup In seen s
      → Ordered (TxsSent setup In) seen events
  unfolding process_transactions
  process_transactions-Ordered_from [] s seen all e v =
      subst (λ p. Ordered (TxsSent setup In) seen p.1) (some-injective e) tt
  process_transactions-Ordered_from (r ∷ rs) s seen all e v =
      let ((again, t, first), stepped, e1) = >>=-eq_some (step setup r s) _ e in
      let (v', ordered) = step-Ordered r s seen all.0 stepped v in
      elim (Bool-cases again) [
        | inl more ↦
            let ((t', later), run, e2) =
              >>=-eq_some (process_transactions setup rs t) _ (rw more at e1) in
            subst (λ p. Ordered (TxsSent setup In) seen p.1) (some-injective e2)
              (Ordered-append (TxsSent setup In) seen first later ordered
                (process_transactions-Ordered_from rs t (after first seen) all.1 run v'))
        | inr over ↦
            subst (λ p. Ordered (TxsSent setup In) seen p.1) (some-injective (rw over at e1))
              ordered
      ]

-- The blocks of the rounds.
abbrev pub Arrived : List Round → TransactionData → Type 0
Arrived rs d = Any (λ (r : Round). r.transaction_data ≡ d) rs

-- Whatever blocks arrive, and whatever the clock, the virtual chain and the database answer, the
-- transaction processor reports to the checkpoint queue only blocks that arrived. Each transaction of
-- a reported block is left out by the options or as a transfer within a group, or accepted statements
-- sent before the report hold the rows of a transaction with its id. The cache of ids must not know an
-- id that was not inserted.
pub process_transactions-Ordered :
    (setup : Setup) (rs : List Round) (now : ℕ) {s : State} {events : List Event}
    → Recalls setup.contains_key
    → process_transactions setup rs (init now) ≡ some (s, events)
    → Ordered (TxsSent setup (Arrived rs)) [] events
unfolding init
process_transactions-Ordered setup rs now recalls e =
    process_transactions-Ordered_from setup recalls (Arrived rs) rs (init now) []
      (All-imp (λ r member. Any-imp (λ q same. ap (λ x. x.transaction_data) (sym same)) rs member)
        rs (All-Any rs))
      e (record { ids_covered = tt; blocks_covered = tt })
