-- ===== src/Fetch/Blocks/Stream.antt =====
-- What the fetcher promises the processors, apart from queues, turns and times: a stream that holds each
-- block that was received, at its first arrival.
use simply_kaspa_indexer.Prelude.{
  map-append, ltb, gather, ◌≢◌, Option-cases, none, ◌≢◌, Option-cases, arith, some, All, Option, ℕ,
  ◌≤◌, ◌<◌, ◌≡◌, refl, sym, ap, ◌∙◌, List, [], ◌∷◌, ◌++◌, map, Bytes, Bool-cases, inl, inr, length,
  if◌then◌else◌,
}
use simply_kaspa_indexer.Checkpoint.{known}
use simply_kaspa_indexer.Mapping.Rpc.{RpcBlock}
use simply_kaspa_indexer.Fetch.{Traffic, push_loop, past}
use simply_kaspa_indexer.Fetch.Queue.{entered, Served, push_loop-Served}
use simply_kaspa_indexer.Fetch.Blocks.{
  HasCapacity, step, init, receive, check_lag, start, handle_blocks, Round, update_last_block, last,
  shown_block, show_last, sync_check, visit_all, behind, TransactionData, ◌>>>◌, Setup, State,
  Arrival, Walk, goes_on, block_data, transaction_data, notice, deliver, visit,
}

-- The stream so far, and the hashes of its blocks, newest first.
pub record Stream : Type 0 where
  pub seen : List Bytes
  pub out : List RpcBlock

abbrev pub empty : Stream
empty = record { seen = []; out = [] }

unfoldable pub emit : RpcBlock → Stream → Stream
emit b st =
    if known b.header.hash st.seen
    then st
    else record { seen = b.header.hash ∷ st.seen; out = st.out ++ b ∷ [] }

unfoldable pub emit_all : List RpcBlock → Stream → Stream
emit_all [] st = st
emit_all (b ∷ bs) st = emit_all bs (emit b st)

admit_all_append :
    (xs ys : List RpcBlock) (st : Stream) → emit_all (xs ++ ys) st ≡ emit_all ys (emit_all xs st)
unfolding emit_all
admit_all_append [] ys st = refl
admit_all_append (x ∷ xs) ys st = admit_all_append xs ys (emit x st)

-- A cache that has forgotten nothing, as within its time to live.
abbrev pub Exact : Setup → Type 0
Exact setup =
    (now : ℕ) (hashes : List Bytes) (h : Bytes) → setup.contains_key now hashes h ≡ known h hashes

-- The fetcher has put the stream into both queues, which are within their capacity.
pub record Matches (capacity : ℕ) (s : State) (st : Stream) : Type 0 where
  pub seen : s.cached ≡ st.seen
  pub blocks : entered s.blocks_queue ≡ map block_data st.out
  pub txs : entered s.txs_queue ≡ map transaction_data st.out
  pub blocks_fit : length s.blocks_queue.waiting ≤ capacity
  pub txs_fit : length s.txs_queue.waiting ≤ capacity

deliver-past :
    (setup : Setup) (a : Arrival) (s : State) {bq : Traffic RpcBlock} {tq : Traffic TransactionData}
    → push_loop setup.push_block (block_data a.block) a.block_turns s.blocks_queue ≡ past bq
    → push_loop setup.push_txs (transaction_data a.block) a.tx_turns s.txs_queue ≡ past tq
    → deliver setup a s
      ≡ goes_on
          (record s { blocks_queue = bq; txs_queue = tq; cached = a.block.header.hash ∷ s.cached })
unfolding deliver
deliver-past setup a s {bq} {tq} be te =
    ap
      (λ p. behind (λ q. record s { blocks_queue = q }) p >>> (λ s₁.
        behind (λ q. record s₁ { txs_queue = q })
          (push_loop setup.push_txs (transaction_data a.block) a.tx_turns s₁.txs_queue)
        >>> (λ s₂. goes_on (record s₂ { cached = a.block.header.hash ∷ s₂.cached }))))
      be
    ∙ ap
        (λ p.
          behind (λ q. record s { blocks_queue = bq; txs_queue = q }) p
          >>> (λ s₂. goes_on (record s₂ { cached = a.block.header.hash ∷ s₂.cached })))
        te

abbrev pub ServedArrival : Arrival → Type 0
ServedArrival a = Served a.block_turns × Served a.tx_turns

module _ (setup : Setup) (capacity : ℕ) (positive : 0 < capacity)
    (laws : HasCapacity setup capacity) where
  deliver-Matches :
      (a : Arrival) (s : State) (st : Stream)
      → ServedArrival a
      → Matches capacity s st
      → (s' : State) × (deliver setup a s ≡ goes_on s')
        × Matches capacity s'
            (record { seen = a.block.header.hash ∷ st.seen; out = st.out ++ a.block ∷ [] })
  unfolding deliver
  deliver-Matches a s st served h =
      let (bq, be, b_in, b_fits) =
        push_loop-Served capacity positive setup.push_block laws.blocks (block_data a.block)
          a.block_turns s.blocks_queue served.0 h.blocks_fit in
      let (tq, te, t_in, t_fits) =
        push_loop-Served capacity positive setup.push_txs laws.txs (transaction_data a.block)
          a.tx_turns s.txs_queue served.1 h.txs_fit in
      (
        record s { blocks_queue = bq; txs_queue = tq; cached = a.block.header.hash ∷ s.cached },
        deliver-past setup a s be te,
        record {
          seen = ap (◌∷◌ a.block.header.hash) h.seen;
          blocks =
              b_in
              ∙ ap (λ xs. xs ++ block_data a.block ∷ []) h.blocks
              ∙ sym (map-append block_data st.out a.block);
          txs =
              t_in
              ∙ ap (λ xs. xs ++ transaction_data a.block ∷ []) h.txs
              ∙ sym (map-append transaction_data st.out a.block);
          blocks_fit = b_fits;
          txs_fit = t_fits;
        },
      )

  notice-Matches :
      (b : RpcBlock) (w : Walk) (st : Stream)
      → Matches capacity w.fetcher st
      → Matches capacity (notice b w).fetcher st
  unfolding notice
  notice-Matches b w st h = record {
    seen = h.seen;
    blocks = h.blocks;
    txs = h.txs;
    blocks_fit = h.blocks_fit;
    txs_fit = h.txs_fit;
  }

  module _ (exact : Exact setup) where
    visit-Matches :
        (a : Arrival) (w : Walk) (st : Stream)
        → ServedArrival a
        → Matches capacity w.fetcher st
        → (w' : Walk) × (visit setup a w ≡ goes_on w')
          × Matches capacity w'.fetcher (emit a.block st)
    unfolding visit emit
    visit-Matches a w st served h =
        let h' = notice-Matches a.block w st h in
        let same : setup.contains_key a.lookup_time w.fetcher.cached a.block.header.hash
            ≡ known a.block.header.hash st.seen =
          exact a.lookup_time w.fetcher.cached a.block.header.hash
          ∙ ap (known a.block.header.hash) h.seen in
        elim (Bool-cases (known a.block.header.hash st.seen)) [
          | inl old ↦ (notice a.block w, rw (same, old) refl, rw old h')
          | inr fresh ↦
              let (s', e, m) = deliver-Matches a (notice a.block w).fetcher st served h' in
              (
                record (notice a.block w) { fetcher = s' },
                rw (same, fresh)
                    (ap (λ d. d >>> (λ s. goes_on (record (notice a.block w) { fetcher = s }))) e),
                rw fresh m,
              )
        ]

    visit_all-Matches :
        (arrivals : List Arrival) (w : Walk) (st : Stream)
        → All ServedArrival arrivals
        → Matches capacity w.fetcher st
        → (w' : Walk) × (visit_all setup arrivals w ≡ goes_on w')
          × Matches capacity w'.fetcher (emit_all (map (λ a. a.block) arrivals) st)
    unfolding visit_all emit_all
    visit_all-Matches [] w st served h = (w, refl, h)
    visit_all-Matches (a ∷ arrivals) w st served h =
        let (w₁, e₁, h₁) = visit-Matches a w st served.0 h in
        let (w₂, e₂, h₂) = visit_all-Matches arrivals w₁ (emit a.block st) served.1 h₁ in
        (w₂, ap (λ d. d >>> visit_all setup arrivals) e₁ ∙ e₂, h₂)

    sync_check-Matches :
        (r : Round) (n : ℕ) (s : State) (st : Stream)
        → Matches capacity s st
        → Matches capacity (sync_check r n s) st
    unfolding sync_check
    sync_check-Matches r n s st h = ground arith

-- The last block of an answer can be shown.
abbrev pub IsShown : Setup → List Arrival → Type 0
IsShown setup arrivals = shown_block setup (last (map (λ a. a.block) arrivals)) ≢ none

module _ (setup : Setup) (capacity : ℕ) where
  show_last-Matches :
      (o : Option RpcBlock) (s : State) (st : Stream)
      → shown_block setup o ≢ none
      → Matches capacity s st
      → (s' : State) × (show_last setup o s ≡ goes_on s') × Matches capacity s' st
  unfolding show_last
  show_last-Matches o s st shown h = elim (Option-cases (shown_block setup o)) [
    | inl e ↦ absurd (shown e)
    | inr (m, e) ↦ (
      record s { last_block = update_last_block m s.last_block },
      rw (show_last, e) refl,
      record {
        seen = h.seen;
        blocks = h.blocks;
        txs = h.txs;
        blocks_fit = h.blocks_fit;
        txs_fit = h.txs_fit;
      },
    )
  ]

-- The blocks of an answer that the fetcher goes through, and those of all answers.
abbrev pub taken_in : Option (List Arrival) → List RpcBlock
taken_in none = []
taken_in (some arrivals) = if ltb 1 (length arrivals) then map (λ a. a.block) arrivals else []

abbrev pub received : List Round → List RpcBlock
received rounds = gather (λ r. taken_in r.response) rounds

-- An answer that the fetcher can deal with: every loop that pushes ends with its item queued, and the
-- last block can be shown.
abbrev pub ServedAnswer : Setup → Option (List Arrival) → Type 0
ServedAnswer setup none = Unit
ServedAnswer setup (some arrivals) = All ServedArrival arrivals × IsShown setup arrivals

module _ (setup : Setup) (capacity : ℕ) (positive : 0 < capacity)
    (laws : HasCapacity setup capacity) (exact : Exact setup) where
  handle_blocks-Matches :
      (now : ℕ) (arrivals : List Arrival) (s : State) (st : Stream)
      → All ServedArrival arrivals
      → Matches capacity s st
      → (s' : State) × (handle_blocks setup now arrivals s ≡ goes_on s')
        × Matches capacity s' (emit_all (map (λ a. a.block) arrivals) st)
  unfolding handle_blocks
  handle_blocks-Matches now arrivals s st served h =
      let (w, e, h') =
        visit_all-Matches setup capacity positive laws exact arrivals
          (record { newest_block_timestamp = 0; block_hash = s.low_hash; fetcher = s }) st served
          h in
      let s' = record w.fetcher {
        low_hash = w.block_hash;
        lag_count = check_lag now w.fetcher.synced w.fetcher.lag_count w.newest_block_timestamp;
      } in
      (
        s',
        rw e refl,
        record {
          seen = h'.seen;
          blocks = h'.blocks;
          txs = h'.txs;
          blocks_fit = h'.blocks_fit;
          txs_fit = h'.txs_fit;
        },
      )

  receive-Matches :
      (r : Round) (o : Option (List Arrival)) (s : State) (st : Stream)
      → ServedAnswer setup o
      → Matches capacity s st
      → (s' : State) × (receive setup r o s ≡ goes_on s')
        × Matches capacity s' (emit_all (taken_in o) st)
  unfolding receive emit_all
  receive-Matches r none s st served h = (s, refl, h)
  receive-Matches r (some arrivals) s st served h =
      let h₁ = sync_check-Matches setup capacity positive laws exact r (length arrivals) s st h in
      elim (Bool-cases (ltb 1 (length arrivals))) [
        | inl more ↦
            let (s₂, e₂, h₂) =
              handle_blocks-Matches r.lag_time arrivals (sync_check r (length arrivals) s) st
                served.0 h₁ in
            let o' = last (map (λ a. a.block) arrivals) in
            let (s₃, e₃, h₃) = show_last-Matches setup capacity o' s₂ _ served.1 h₂ in
            (s₃, rw more (ap (λ d. d >>> show_last setup o') e₂ ∙ e₃), rw more h₃)
        | inr few ↦ (sync_check r (length arrivals) s, rw few refl, rw few h₁)
      ]

  start-Matches :
      (rounds : List Round) (s : State) (st : Stream)
      → All (λ r. ServedAnswer setup r.response) rounds
      → Matches capacity s st
      → (s' : State) × (start setup rounds s ≡ goes_on s')
        × Matches capacity s' (emit_all (received rounds) st)
  unfolding start step emit_all
  start-Matches [] s st served h = (s, refl, h)
  start-Matches (r ∷ rounds) s st served h =
      let (s₁, e₁, h₁) = receive-Matches r r.response s st served.0 h in
      let (s₂, e₂, h₂) = start-Matches rounds s₁ (emit_all (taken_in r.response) st) served.1 h₁ in
      (
        s₂,
        ap (λ d. d >>> start setup rounds) e₁ ∙ e₂,
        rw (admit_all_append (taken_in r.response) (received rounds) st) h₂,
      )

-- Where both queues are bounded by a capacity that is not 0, the processors pop items, no shutdown comes, the last
-- block of each answer can be shown and the cache has forgotten nothing: the fetcher gets through all
-- answers, without a panic and without being stuck. Both queues have then received, in the order of
-- arrival, exactly one item for each block of the answers of at least two blocks: that of
-- its first arrival. No queue holds more than its capacity.
pub start_refines :
    (setup : Setup) (capacity : ℕ) (rounds : List Round) (block_checkpoint : Bytes) (now : ℕ)
    → HasCapacity setup capacity
    → 0 < capacity
    → Exact setup
    → All (λ r. ServedAnswer setup r.response) rounds
    → (s : State) × (start setup rounds (init block_checkpoint now) ≡ goes_on s)
      × Matches capacity s (emit_all (received rounds) empty)
unfolding init
start_refines setup capacity rounds block_checkpoint now laws positive exact served =
    start-Matches setup capacity positive laws exact rounds (init block_checkpoint now) empty served
      (record {
        seen = refl;
        blocks = refl;
        txs = refl;
        blocks_fit = omega arith;
        txs_fit = omega arith;
      })
