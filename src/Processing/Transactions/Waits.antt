-- ===== src/Processing/Transactions/Waits.antt =====
-- Transactions are inserted only behind the virtual chain.
use mathlib.Core.Path.{ap₂}
use simply_kaspa_indexer.Prelude.{
  All, ap, sym, ◌∙◌, ◌++◌, ℕ, ◌+◌, ◌*◌, ◌-◌, ◌≤◌, ◌<◌, ◌≡◌, ◌⊎◌, refl, subst, Bool, true, false,
  Option, some, none, List, [], ◌∷◌, Any, inl, inr, arith, leb→le, Bool-cases, >>=-eq_some,
  some-injective,
}
use simply_kaspa_indexer.Checkpoint.{CheckpointBlock}
use simply_kaspa_indexer.Processing.{Event, MetricsBlock, last}
use simply_kaspa_indexer.Processing.Transactions.{
  is_due, receive, step, process_transactions, init, Setup, State, Round, Poll,
  disable_rejected_transactions, is_ahead, wait_for_vcp, commit,
}

-- The poll shows a virtual chain that is three seconds of blocks ahead of `daa_score`.
abbrev pub ShowsAhead : ℕ → ℕ → Poll → Type 0
ShowsAhead net_bps daa_score p =
    (vcp : MetricsBlock) × (p.vcp_last_block ≡ some vcp) × (daa_score + 3 * net_bps ≤ vcp.daa_score)

is_ahead-ShowsAhead :
    (net_bps daa_score : ℕ) (p : Poll) (o : Option MetricsBlock)
    → 0 < net_bps
    → p.vcp_last_block ≡ o
    → is_ahead net_bps daa_score o ≡ true
    → ShowsAhead net_bps daa_score p
unfolding is_ahead
is_ahead-ShowsAhead net_bps daa_score p none positive e h = cc
is_ahead-ShowsAhead net_bps daa_score p (some vcp) positive e h =
    (vcp, e, omega (arith, leb→le (3 * net_bps) (vcp.daa_score - daa_score) h, positive))

wait_for_vcp-ShowsAhead :
    (net_bps daa_score : ℕ) (ps : List Poll)
    → 0 < net_bps
    → wait_for_vcp net_bps daa_score ps ≡ true
    → Any (ShowsAhead net_bps daa_score) ps
unfolding wait_for_vcp
wait_for_vcp-ShowsAhead net_bps daa_score [] positive h = cc
wait_for_vcp-ShowsAhead net_bps daa_score (p ∷ ps) positive h =
    elim (Bool-cases (is_ahead net_bps daa_score p.vcp_last_block)) [
      | inl ahead ↦
          inl (is_ahead-ShowsAhead net_bps daa_score p p.vcp_last_block positive refl ahead)
      | inr behind ↦ elim (Bool-cases p.shutdown) [
        | inl stop ↦ cc (rw (behind, stop) at h)
        | inr go ↦
            inr (wait_for_vcp-ShowsAhead net_bps daa_score ps positive (rw (behind, go) at h))
      ]
    ]

-- Where rejected transactions are kept, and the network has at least one block per second, a commit
-- that does not panic either changes nothing, reports
-- nothing and ends the loop, as at a shutdown, or a poll has shown a last block of the virtual chain
-- whose score is that of the last block to commit and three seconds of blocks more.
pub commit_waits :
    (setup : Setup) (r : Round) (s : State) {again : Bool} {s' : State} {events : List Event}
    → 0 < setup.net_bps
    → disable_rejected_transactions setup ≡ false
    → commit setup r s ≡ some (again, s', events)
    → ((again ≡ false) × (s' ≡ s) × (events ≡ []))
      ⊎ ((c : CheckpointBlock) × (last s.checkpoint_blocks ≡ some c)
          × Any (ShowsAhead setup.net_bps c.daa_score) r.polls)
unfolding commit
commit_waits setup r s positive on e =
    let (c, is_last, e1) = >>=-eq_some (last s.checkpoint_blocks) _ e in
    elim (Bool-cases (wait_for_vcp setup.net_bps c.daa_score r.polls)) [
      | inl ready ↦
          inr (c, is_last, wait_for_vcp-ShowsAhead setup.net_bps c.daa_score r.polls positive ready)
      | inr early ↦ inl (
          subst (λ p. (p.0 ≡ false) × (p.1 ≡ s) × (p.2 ≡ []))
            (some-injective (rw (on, early) at e1)) (refl, refl, refl))
    ]

-- No poll shows a block of the virtual chain.
abbrev pub ShowsNone : Round → Type 0
ShowsNone r = All (λ p. p.vcp_last_block ≡ none) r.polls

wait_for_vcp-ShowsNone :
    (net_bps daa_score : ℕ) (ps : List Poll)
    → All (λ p. p.vcp_last_block ≡ none) ps
    → wait_for_vcp net_bps daa_score ps ≡ false
unfolding wait_for_vcp is_ahead
wait_for_vcp-ShowsNone net_bps daa_score [] h = refl
wait_for_vcp-ShowsNone net_bps daa_score (p ∷ ps) h = elim (Bool-cases p.shutdown) [
  | inl stop ↦ rw (h.0, stop) refl
  | inr go ↦ rw (h.0, go) (wait_for_vcp-ShowsNone net_bps daa_score ps h.1)
]

module _ (setup : Setup) (kept : disable_rejected_transactions setup ≡ false) where
  commit-ShowsNone :
      (r : Round) (s : State) {again : Bool} {s' : State} {events : List Event}
      → ShowsNone r
      → commit setup r s ≡ some (again, s', events)
      → events ≡ []
  unfolding commit
  commit-ShowsNone r s none_shown e =
      let (c, is_last, e1) = >>=-eq_some (last s.checkpoint_blocks) _ e in
      let early = wait_for_vcp-ShowsNone setup.net_bps c.daa_score r.polls none_shown in
      ap (λ p. p.2) (sym (some-injective (rw (kept, early) at e1)))

  step-ShowsNone :
      (r : Round) (s : State) {again : Bool} {s' : State} {events : List Event}
      → ShowsNone r
      → step setup r s ≡ some (again, s', events)
      → events ≡ []
  unfolding step
  step-ShowsNone r s none_shown e =
      let (s₁, received, e1) = >>=-eq_some (receive setup r s) _ e in
      elim (Bool-cases (is_due setup r.check_time s₁)) [
        | inl due ↦ commit-ShowsNone r s₁ none_shown (rw due at e1)
        | inr early ↦ ap (λ p. p.2) (sym (some-injective (rw early at e1)))
      ]

  process_transactions-ShowsNone_from :
      (rs : List Round) (s : State) {s' : State} {events : List Event}
      → All ShowsNone rs
      → process_transactions setup rs s ≡ some (s', events)
      → events ≡ []
  unfolding process_transactions
  process_transactions-ShowsNone_from [] s none_shown e = ap (λ p. p.1) (sym (some-injective e))
  process_transactions-ShowsNone_from (r ∷ rs) s none_shown e =
      let ((again, s₁, first), stepped, e1) = >>=-eq_some (step setup r s) _ e in
      let first_none = step-ShowsNone r s none_shown.0 stepped in
      elim (Bool-cases again) [
        | inl more ↦
            let ((s₂, later), ran, e2) =
              >>=-eq_some (process_transactions setup rs s₁) _ (rw more at e1) in
            ap (λ p. p.1) (sym (some-injective e2))
            ∙ ap₂ ◌++◌ first_none (process_transactions-ShowsNone_from rs s₁ none_shown.1 ran)
        | inr over ↦ ap (λ p. p.1) (sym (some-injective (rw over at e1))) ∙ first_none
      ]

-- Where the virtual chain processor shows no block, as it never does while it is disabled, and rejected
-- transactions are kept, as by default: no run of the transaction processor that does not panic inserts
-- a row or reports a block, whatever arrives.
pub process_transactions-ShowsNone :
    (setup : Setup) (rs : List Round) (now : ℕ) {s : State} {events : List Event}
    → disable_rejected_transactions setup ≡ false
    → All ShowsNone rs
    → process_transactions setup rs (init now) ≡ some (s, events)
    → events ≡ []
process_transactions-ShowsNone setup rs now kept none_shown e =
    process_transactions-ShowsNone_from setup kept rs (init now) none_shown e
