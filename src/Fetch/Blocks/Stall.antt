-- ===== src/Fetch/Blocks/Stall.antt =====
-- Without a transaction processor nothing pops the queue of the transactions.
use simply_kaspa_indexer.Prelude.{
  Option-cases, ℕ, ◌+◌, ◌≤◌, ◌≡◌, ◌⊎◌, refl, ap, subst, Option, none, some, List, [], ◌∷◌, ◌++◌,
  Bytes, All, arith, Bool-cases, inl, inr, length, length-append, ltb,
}
use simply_kaspa_indexer.Mapping.Rpc.{RpcBlock}
use simply_kaspa_indexer.Processing.Transactions.{TransactionData}
use simply_kaspa_indexer.Fetch.{Pushing, past, asleep}
use simply_kaspa_indexer.Fetch.Queue.{
  entered, queue, Running, PushedTo, push_loop-PushedTo, push_loop-capacity, push_loop-untaken,
}
use simply_kaspa_indexer.Fetch.Blocks.Ends.{
  Ends, on, full, lost, Ends-then, Ends-goes_on, Ends-waits,
}
use simply_kaspa_indexer.Fetch.Blocks.{
  HasCapacity, Setup, State, Arrival, Round, Walk, Flow, goes_on, waits, behind, block_data,
  transaction_data, notice, deliver, visit, visit_all, handle_blocks, sync_check, shown_block,
  show_last, receive, step, start, init,
}

-- No shutdown comes, and nothing pops the transactions.
abbrev pub Unattended : Arrival → Type 0
Unattended a = Running a.block_turns × Running a.tx_turns × All (λ t. t.popped ≡ 0) a.tx_turns

abbrev pub UnattendedAnswer : Option (List Arrival) → Type 0
UnattendedAnswer none = Unit
UnattendedAnswer (some arrivals) = All Unattended arrivals

-- As many blocks as transactions have entered, and these all fill up their queue.
record Filling (capacity : ℕ) (s : State) : Type 0 where
  untaken : s.txs_queue.taken ≡ []
  fits : length s.txs_queue.waiting ≤ capacity
  balanced : length (entered s.blocks_queue) ≤ length s.txs_queue.waiting

-- Asleep, at most one block is ahead of the transactions that fill their queue.
abbrev Stuck : ℕ → State → Type 0
Stuck capacity s = length (entered s.blocks_queue) ≤ capacity + 1

module _ (setup : Setup) (capacity : ℕ) (laws : HasCapacity setup capacity) where
  abbrev Fills : State → Type 0
  Fills = Filling capacity

  -- Behind the first of the two loops a block may be ahead of its transactions.
  record Half (s : State) : Type 0 where
    untaken : s.txs_queue.taken ≡ []
    fits : length s.txs_queue.waiting ≤ capacity
    ahead : length (entered s.blocks_queue) ≤ length s.txs_queue.waiting + 1

  push_block_lem :
      (a : Arrival) (s : State) (p : Pushing RpcBlock)
      → PushedTo (block_data a.block) s.blocks_queue p
      → Fills s
      → Ends (Stuck capacity) Half (behind (λ q. record s { blocks_queue = q }) p)
  push_block_lem a s (asleep q) pushed h =
      full (omega (arith, ap length pushed, h.fits, h.balanced))
  push_block_lem a s (past q) pushed h = on (record {
    untaken = h.untaken;
    fits = h.fits;
    ahead = omega (
      arith,
      ap length pushed,
      h.balanced,
      length-append (entered s.blocks_queue) (block_data a.block ∷ []),
    );
  })

  push_txs_lem :
      (a : Arrival) (s : State) (p : Pushing TransactionData)
      → PushedTo (transaction_data a.block) s.txs_queue p
      → (queue p).taken ≡ []
      → length (queue p).waiting ≤ capacity
      → Half s
      → Ends (Stuck capacity) Fills (behind (λ q. record s { txs_queue = q }) p)
  push_txs_lem a s (asleep q) pushed untaken fits h = full (omega (arith, h.fits, h.ahead))
  push_txs_lem a s (past q) pushed untaken fits h =
      let e : q.waiting ≡ s.txs_queue.waiting ++ transaction_data a.block ∷ [] =
        subst (λ xs. xs ++ q.waiting ≡ s.txs_queue.waiting ++ transaction_data a.block ∷ []) untaken
          (subst (λ xs. entered q ≡ (xs ++ s.txs_queue.waiting) ++ transaction_data a.block ∷ [])
            h.untaken pushed) in
      on (record {
        untaken = untaken;
        fits = fits;
        balanced = omega (
          arith,
          h.ahead,
          ap length e,
          length-append s.txs_queue.waiting (transaction_data a.block ∷ []),
        );
      })

  deliver-Ends :
      (a : Arrival) (s : State)
      → Unattended a
      → Fills s
      → Ends (Stuck capacity) Fills (deliver setup a s)
  unfolding deliver
  deliver-Ends a s (block_on, tx_on, unpopped) h =
      Ends-then _ _
        (push_block_lem a s _
          (push_loop-PushedTo capacity setup.push_block (block_data a.block) a.block_turns
            s.blocks_queue laws.blocks block_on)
          h)
        (λ s₁ h₁.
          Ends-then _ _
            (push_txs_lem a s₁ _
              (push_loop-PushedTo capacity setup.push_txs (transaction_data a.block) a.tx_turns
                s₁.txs_queue laws.txs tx_on)
              (push_loop-untaken setup.push_txs (transaction_data a.block) a.tx_turns s₁.txs_queue
                unpopped h₁.untaken)
              (push_loop-capacity capacity setup.push_txs (transaction_data a.block) a.tx_turns
                s₁.txs_queue laws.txs h₁.fits)
              h₁)
            (λ s₂ h₂. on (record { untaken = h₂.untaken; fits = h₂.fits; balanced = h₂.balanced })))

  visit-Ends :
      (a : Arrival) (w : Walk)
      → Unattended a
      → Fills w.fetcher
      → Ends (Stuck capacity) (λ (w : Walk). Fills w.fetcher) (visit setup a w)
  unfolding visit notice
  visit-Ends a w idle h =
      let h' : Fills (notice a.block w).fetcher = record {
        untaken = h.untaken;
        fits = h.fits;
        balanced = h.balanced;
      } in
      elim (Bool-cases (setup.contains_key a.lookup_time w.fetcher.cached a.block.header.hash)) [
        | inl old ↦ rw old (on h')
        | inr fresh ↦
            rw fresh
              (Ends-then _ _ (deliver-Ends a (notice a.block w).fetcher idle h') (λ s k. on k))
      ]

  visit_all-Ends :
      (arrivals : List Arrival) (w : Walk)
      → All Unattended arrivals
      → Fills w.fetcher
      → Ends (Stuck capacity) (λ (w : Walk). Fills w.fetcher) (visit_all setup arrivals w)
  unfolding visit_all
  visit_all-Ends [] w idle h = Ends.on h
  visit_all-Ends (a ∷ arrivals) w idle h =
      Ends-then _ _ (visit-Ends a w idle.0 h) (λ w' h'. visit_all-Ends arrivals w' idle.1 h')

  handle_blocks-Ends :
      (now : ℕ) (arrivals : List Arrival) (s : State)
      → All Unattended arrivals
      → Fills s
      → Ends (Stuck capacity) Fills (handle_blocks setup now arrivals s)
  unfolding handle_blocks
  handle_blocks-Ends now arrivals s idle h =
      Ends-then _ _ (visit_all-Ends arrivals _ idle h)
        (λ w k. on (record { untaken = k.untaken; fits = k.fits; balanced = k.balanced }))

  sync_check-Fills : (r : Round) (n : ℕ) (s : State) → Fills s → Fills (sync_check r n s)
  unfolding sync_check
  sync_check-Fills r n s h = ground (arith)

  show_last-Ends :
      (o : Option RpcBlock) (s : State)
      → Fills s
      → Ends (Stuck capacity) Fills (show_last setup o s)
  unfolding show_last
  show_last-Ends o s h = elim (Option-cases (shown_block setup o)) [
    | inl e ↦ rw (show_last, e) lost
    | inr (m, e) ↦
        rw (show_last, e)
          (on (record { untaken = h.untaken; fits = h.fits; balanced = h.balanced }))
  ]

  receive-Ends :
      (r : Round) (o : Option (List Arrival)) (s : State)
      → UnattendedAnswer o
      → Fills s
      → Ends (Stuck capacity) Fills (receive setup r o s)
  unfolding receive
  receive-Ends r none s idle h = Ends.on h
  receive-Ends r (some arrivals) s idle h =
      let h₁ = sync_check-Fills r (length arrivals) s h in
      elim (Bool-cases (ltb 1 (length arrivals))) [
        | inl more ↦ rw more (
            Ends-then _ _ (handle_blocks-Ends r.lag_time arrivals _ idle h₁)
              (λ s₂ h₂. show_last-Ends _ s₂ h₂))
        | inr few ↦ rw few (on h₁)
      ]

  start-Ends :
      (rounds : List Round) (s : State)
      → All (λ r. UnattendedAnswer r.response) rounds
      → Fills s
      → Ends (Stuck capacity) Fills (start setup rounds s)
  unfolding start step
  start-Ends [] s idle h = Ends.on h
  start-Ends (r ∷ rounds) s idle h =
      Ends-then _ _ (receive-Ends r r.response s idle.0 h) (λ s₁ h₁. start-Ends rounds s₁ idle.1 h₁)

-- Where the fetcher stands: at the end of the answers so far, or asleep in front of a full queue.
abbrev pub StandsAt : State → Flow State → Type 0
StandsAt s d = (d ≡ goes_on s) ⊎ (d ≡ waits s)

-- Where nothing pops the queue of the transactions, and no shutdown comes, the fetcher never queues more
-- blocks than that queue holds, and one: whatever the node answers, and however fast the blocks are
-- processed.
pub start_stalls :
    (setup : Setup) (capacity : ℕ) (rounds : List Round) (block_checkpoint : Bytes) (now : ℕ)
    {s : State}
    → HasCapacity setup capacity
    → All (λ r. UnattendedAnswer r.response) rounds
    → StandsAt s (start setup rounds (init block_checkpoint now))
    → length (entered s.blocks_queue) ≤ capacity + 1
unfolding init
start_stalls setup capacity rounds block_checkpoint now {s} laws idle at = elim at [
  | inl e ↦
      let h = Ends-goes_on (subst (Ends (Stuck capacity) (Filling capacity)) e ends) in
      omega (arith, h.fits, h.balanced)
  | inr e ↦ Ends-waits (subst (Ends (Stuck capacity) (Filling capacity)) e ends)
]
  where
    ends : Ends (Stuck capacity) (Filling capacity) (start setup rounds (init block_checkpoint now))
    ends =
        start-Ends setup capacity laws rounds (init block_checkpoint now) idle
          (record { untaken = refl; fits = omega arith; balanced = omega arith })
