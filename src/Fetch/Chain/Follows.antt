-- ===== src/Fetch/Chain/Follows.antt =====
-- The order in which the virtual chain is asked for, and passed on.
use simply_kaspa_indexer.Prelude.{
  if◌then◌else◌, ◌>>=◌, append-nil, ◌∙◌, ℕ, ◌+◌, ◌*◌, ◌-◌, ◌<◌, ◌≡◌, refl, subst, sym, Bool, true,
  false, Option, none, some, List, [], ◌∷◌, ◌++◌, Bytes, ltb→lt, arith, Bool-cases, inl, inr,
  >>=-eq_some, some-injective, is_empty,
}
use simply_kaspa_indexer.Processing.{MetricsBlock, last}
use simply_kaspa_indexer.Fetch.Chain.{
  after_send, after_answer, ChainBlock, Response, Poll, Round, Event, asked, sent, saw, score_of,
  is_near, wait_near, pass_on, respond, step, fetch_virtual_chain,
}

-- The events allowed where the loop would ask from `h`: it asks, or passes on a response that adds blocks
-- up to the next `h`. In the second family it still has to see the block processor less than five
-- minutes of blocks behind the score of that response's last block.
mutual
  pub data Follows (net_bps : ℕ) : Bytes → List Event → Type 0 where
    rests : {h : Bytes} → Follows net_bps h []
    asks :
        {h : Bytes} {n : ℕ} {es : List Event}
        → Follows net_bps h es
        → Follows net_bps h (asked h n ∷ es)
    passes_on :
        {h h' : Bytes} {res : Response} {b : ChainBlock} {daa_score : ℕ} {es : List Event}
        → last res.added_chain_block_hashes ≡ some h'
        → last res.chain_block_accepted_transactions ≡ some b
        → b.daa_score ≡ some daa_score
        → Waits net_bps h' daa_score es
        → Follows net_bps h (sent res ∷ es)

  pub data Waits (net_bps : ℕ) : Bytes → ℕ → List Event → Type 0 where
    asleep : {h : Bytes} {daa_score : ℕ} → Waits net_bps h daa_score []
    sees_far :
        {h : Bytes} {daa_score : ℕ} {o : Option MetricsBlock} {es : List Event}
        → Waits net_bps h daa_score es
        → Waits net_bps h daa_score (saw o ∷ es)
    sees_near :
        {h : Bytes} {daa_score : ℕ} {o : Option MetricsBlock} {es : List Event}
        → daa_score < score_of o + 300 * net_bps
        → Follows net_bps h es
        → Waits net_bps h daa_score (saw o ∷ es)

module _ (net_bps : ℕ) where
  -- What may come behind a part of the loop: nothing, where it has ended.
  abbrev Next : Bool → Bytes → List Event → Type 0
  Next true h later = Follows net_bps h later
  Next false h later = later ≡ []

  is_near_lem :
      (daa_score : ℕ) (o : Option MetricsBlock)
      → is_near net_bps daa_score o ≡ true
      → daa_score < score_of o + 300 * net_bps
  unfolding is_near
  is_near_lem daa_score o h = omega (arith, ltb→lt (daa_score - score_of o) (300 * net_bps) h)

  wait_near-Waits :
      (daa_score : ℕ) (ps : List Poll) (h : Bytes) (later : List Event)
      → Next (wait_near net_bps daa_score ps).0 h later
      → Waits net_bps h daa_score ((wait_near net_bps daa_score ps).1 ++ later)
  unfolding wait_near
  wait_near-Waits daa_score [] h later k = subst (Waits net_bps h daa_score) (sym k) asleep
  wait_near-Waits daa_score (p ∷ ps) h later k =
      elim (Bool-cases (is_near net_bps daa_score p.last_block)) [
        | inl near ↦ rw near (sees_near (is_near_lem daa_score p.last_block near) (rw near at k))
        | inr far ↦ elim (Bool-cases p.shutdown) [
          | inl stop ↦
              rw (far, stop)
                (sees_far (subst (Waits net_bps h daa_score) (sym (rw (far, stop) at k)) asleep))
          | inr go ↦
              rw (far, go) (sees_far (wait_near-Waits daa_score ps h later (rw (far, go) at k)))
        ]
      ]

  after_send-Follows :
      (sends : Bool) (res : Response) (h : Bytes) {h' : Bytes} {b : ChainBlock} {daa_score : ℕ}
      (waited : Bool × List Event) (later : List Event)
      → last res.added_chain_block_hashes ≡ some h'
      → last res.chain_block_accepted_transactions ≡ some b
      → b.daa_score ≡ some daa_score
      → (Next waited.0 h' later → Waits net_bps h' daa_score (waited.1 ++ later))
      → Next (after_send sends res h' waited).0 h' later
      → Follows net_bps h ((after_send sends res h' waited).2 ++ later)
  unfolding after_send
  after_send-Follows true res h waited later added last_block score waits k =
      passes_on added last_block score (waits k)
  after_send-Follows false res h waited later added last_block score waits k =
      subst (Follows net_bps h) (sym k) rests

  after_send_hash :
      (sends : Bool) (res : Response) (h : Bytes) (waited : Bool × List Event)
      → (after_send sends res h waited).1 ≡ h
  unfolding after_send
  after_send_hash true res h waited = refl
  after_send_hash false res h waited = refl

  pass_on-Follows :
      (r : Round) (res : Response) (h : Bytes) {again : Bool} {h' : Bytes} {es : List Event}
      (later : List Event)
      → pass_on net_bps r res ≡ some (again, h', es)
      → Next again h' later
      → Follows net_bps h (es ++ later)
  unfolding pass_on
  pass_on-Follows r res h later e k =
      let (h₁, added, e₁) = >>=-eq_some (last res.added_chain_block_hashes) _ e in
      let (b, last_block, e₂) = >>=-eq_some (last res.chain_block_accepted_transactions) _ e₁ in
      let (daa_score, score, e₃) = >>=-eq_some b.daa_score _ e₂ in
      subst (λ p. Next p.0 p.1 later → Follows net_bps h (p.2 ++ later)) (some-injective e₃)
        (λ k.
          after_send-Follows r.send_succeeds res h (wait_near net_bps daa_score r.polls) later added
            last_block score (λ k. wait_near-Waits daa_score r.polls h₁ later k)
            (subst
              (λ x.
                Next (after_send r.send_succeeds res h₁ (wait_near net_bps daa_score r.polls)).0 x
                  later)
              (after_send_hash r.send_succeeds res h₁ (wait_near net_bps daa_score r.polls)) k))
        k

  respond-Follows :
      (r : Round) (answer : Option Response) (h : Bytes) {again : Bool} {h' : Bytes}
      {es : List Event} (later : List Event)
      → respond net_bps r h answer ≡ some (again, h', es)
      → Next again h' later
      → Follows net_bps h (es ++ later)
  unfolding respond
  respond-Follows r none h later e k =
      subst (λ p. Next p.0 p.1 later → Follows net_bps h (p.2 ++ later)) (some-injective e) (λ k. k)
        k
  respond-Follows r (some res) h later e k =
      elim (Bool-cases (is_empty res.added_chain_block_hashes)) [
        | inl nothing ↦
            subst (λ p. Next p.0 p.1 later → Follows net_bps h (p.2 ++ later))
              (some-injective (rw nothing at e)) (λ k. k) k
        | inr more ↦ pass_on-Follows r res h later (rw more at e) k
      ]

  answer-Follows :
      (r : Round) (o : Option (Option Response)) (h : Bytes) {again : Bool} {h' : Bytes}
      {es : List Event} (later : List Event)
      → after_answer net_bps r h o ≡ some (again, h', es)
      → Next again h' later
      → Follows net_bps h (es ++ later)
  unfolding after_answer
  answer-Follows r none h later e k =
      subst (λ p. Next p.0 p.1 later → Follows net_bps h (p.2 ++ later)) (some-injective e) (λ k. k)
        k
  answer-Follows r (some answer) h later e k =
      let ((again, h₁, es), answered, e₁) = >>=-eq_some (respond net_bps r h answer) _ e in
      subst (λ p. Next p.0 p.1 later → Follows net_bps h (p.2 ++ later)) (some-injective e₁)
        (λ k. asks (respond-Follows r answer h later answered k)) k

  step-Follows :
      (r : Round) (h : Bytes) {again : Bool} {h' : Bytes} {es : List Event} (later : List Event)
      → step net_bps r h ≡ some (again, h', es)
      → Next again h' later
      → Follows net_bps h (es ++ later)
  unfolding step
  step-Follows r h later e k = elim (Bool-cases r.shutdown) [
    | inl stop ↦
        subst (λ p. Next p.0 p.1 later → Follows net_bps h (p.2 ++ later))
          (some-injective (rw stop at e)) (λ k. subst (Follows net_bps h) (sym k) rests) k
    | inr go ↦ answer-Follows r r.response h later (rw go at e) k
  ]

-- In every run of the loop that does not panic, whatever the node answers: each request is for what
-- follows the last added block of the last response that was passed on, or the checkpoint where none was;
-- and behind a response that was passed on, nothing is asked and nothing passed on before the block
-- processor has shown a last block less than five minutes of blocks behind that of the response.
pub fetch_virtual_chain-Follows :
    (net_bps : ℕ) (rounds : List Round) (vcp_checkpoint : Bytes) {es : List Event}
    → fetch_virtual_chain net_bps rounds vcp_checkpoint ≡ some es
    → Follows net_bps vcp_checkpoint es
unfolding fetch_virtual_chain
fetch_virtual_chain-Follows net_bps [] h e = subst (Follows net_bps h) (some-injective e) rests
fetch_virtual_chain-Follows net_bps (r ∷ rounds) h e =
    let ((again, h₁, es), stepped, e₁) = >>=-eq_some (step net_bps r h) _ e in
    go again stepped e₁ (λ later ran. fetch_virtual_chain-Follows net_bps rounds h₁ ran)
  where
    go :
        (again : Bool) {h₁ : Bytes} {es fs : List Event}
        → step net_bps r h ≡ some (again, h₁, es)
        → (if again
            then (fetch_virtual_chain net_bps rounds h₁ >>= λ later. some (es ++ later))
            else some es)
          ≡ some fs
        → ((later : List Event)
            → fetch_virtual_chain net_bps rounds h₁ ≡ some later
            → Follows net_bps h₁ later)
        → Follows net_bps h fs
    go true {h₁} {es} stepped e₁ ih =
        let (later, ran, e₂) = >>=-eq_some (fetch_virtual_chain net_bps rounds h₁) _ e₁ in
        subst (Follows net_bps h) (some-injective e₂)
          (step-Follows net_bps r h later stepped (ih later ran))
    go false {h₁} {es} stepped e₁ ih =
        subst (Follows net_bps h) (append-nil es ∙ some-injective e₁)
          (step-Follows net_bps r h [] stepped refl)
