-- ===== src/VirtualChain/Responses/Saved.antt =====
-- A written checkpoint of the virtual chain names a block whose response is in the database.
use simply_kaspa_indexer.Prelude.{
  ap, refl, map, sym, append-nil, none, Option, Option-cases, ltb, length, append_assoc, ◌≡◌, ◌⊎◌,
  subst, true, some, List, [], ◌∷◌, ◌++◌, All, Any, All-imp, All-Any, inl, inr, Bool-cases,
  >>=-eq_some, some-injective,
}
use simply_kaspa_indexer.Models.{TransactionAcceptance}
use simply_kaspa_indexer.Processing.Transactions.Cover.{RowsImp}
use simply_kaspa_indexer.Checkpoint.{CheckpointBlock}
use simply_kaspa_indexer.Database.Batches.Cover.{Any-append_left, Any-append_right}
use simply_kaspa_indexer.Processing.{Event, MetricsBlock, last, metrics_block}
use simply_kaspa_indexer.Processing.Transactions.Inserted.{SentRows}
use simply_kaspa_indexer.Processing.Transactions.Order.{Recalls}
use simply_kaspa_indexer.VirtualChain.{Tip, tip_step}
use simply_kaspa_indexer.VirtualChain.Accept.{ChainBlock, remove_chain_blocks}
use simply_kaspa_indexer.VirtualChain.Accept.Loops.{AllRows-imp, BlockAccepted, BlockAccepted-imp}
use simply_kaspa_indexer.VirtualChain.Accept.Sends.{
  SentAcceptance, accept_transactions-BlockAccepted,
}
use simply_kaspa_indexer.VirtualChain.Responses.{
  Setup, Round, State, init, window, disable_transaction_acceptance, checkpoint_of, write_response,
  step, process_virtual_chain, Action, did, saved, Ran, respond, save, show_and_save, finish, next,
  saved_after, events_of,
}

module _ (setup : Setup) where
  -- The chain blocks are accepted by statements among the events.
  abbrev pub AllAccepted : List Event → List ChainBlock → Type 0
  AllAccepted events = All (BlockAccepted setup.accepting (SentAcceptance events) (SentRows events))

  -- `c` names the last block of a response of which `In` holds, and that response is accepted.
  abbrev pub IsRestart : (Round → Type 0) → List Event → CheckpointBlock → Type 0
  IsRestart In events c =
      (r : Round) × In r
      × (b : ChainBlock) × (last r.chain_blocks ≡ some b)
      × (checkpoint_of b ≡ some c)
      × ((disable_transaction_acceptance setup ≡ true) ⊎ AllAccepted events r.chain_blocks)

  AllAccepted-grows :
      (es fs : List Event)
      → ((P : Event → Type 0) → Any P es → Any P fs)
      → (bs : List ChainBlock) → AllAccepted es bs
      → AllAccepted fs bs
  AllAccepted-grows es fs f bs =
      let accepted : (row : TransactionAcceptance) → SentAcceptance es row → SentAcceptance fs row =
        λ row. f _ in
      let rows : RowsImp (SentRows es) (SentRows fs) = record {
        tx_imp = λ row. f _;
        address_imp = λ row. f _;
        script_imp = λ row. f _;
      } in
      All-imp (BlockAccepted-imp setup.accepting accepted (AllRows-imp setup.accepting rows)) bs

  IsRestart-grows :
      (In : Round → Type 0) (es fs : List Event) (c : CheckpointBlock)
      → ((P : Event → Type 0) → Any P es → Any P fs)
      → IsRestart In es c
      → IsRestart In fs c
  IsRestart-grows In es fs c f (r, here, b, is_last, names, inl off) =
      (r, here, b, is_last, names, inl off)
  IsRestart-grows In es fs c f (r, here, b, is_last, names, inr all) =
      (r, here, b, is_last, names, inr (AllAccepted-grows es fs f r.chain_blocks all))

  write_response_accepts :
      (r : Round) {events : List Event}
      → Recalls setup.accepting.contains_key
      → write_response setup r ≡ some events
      → (disable_transaction_acceptance setup ≡ true) ⊎ AllAccepted events r.chain_blocks
  unfolding write_response
  write_response_accepts r recalls e = elim (Bool-cases (disable_transaction_acceptance setup)) [
    | inl off ↦ inl off
    | inr on ↦ inr (
        accept_transactions-BlockAccepted setup.accepting r.time r.accepts r.chain_blocks recalls
          (rw on at e))
  ]

  -- Each checkpoint is written behind the statements that it promises; `seen` came before.
  abbrev pub InOrder : (Round → Type 0) → List Event → List Action → Type 0
  InOrder In seen [] = Unit
  InOrder In seen (did e ∷ actions) = InOrder In (seen ++ e ∷ []) actions
  InOrder In seen (saved c ∷ actions) = IsRestart In seen c × InOrder In seen actions

  InOrder-append :
      (In : Round → Type 0) (seen : List Event) (xs bs : List Action)
      → InOrder In seen xs
      → InOrder In (seen ++ events_of xs) bs
      → InOrder In seen (xs ++ bs)
  unfolding events_of
  InOrder-append In seen [] bs h k = subst (λ es. InOrder In es bs) (append-nil seen) k
  InOrder-append In seen (did e ∷ xs) bs h k =
      InOrder-append In (seen ++ e ∷ []) xs bs h
        (subst (λ es. InOrder In es bs) (sym (append_assoc seen (e ∷ []) (events_of xs))) k)
  InOrder-append In seen (saved c ∷ xs) bs h k = (h.0, InOrder-append In seen xs bs h.1 k)

  InOrder-did : (In : Round → Type 0) (seen es : List Event) → InOrder In seen (map did es)
  InOrder-did In seen [] = tt
  InOrder-did In seen (e ∷ es) = InOrder-did In (seen ++ e ∷ []) es

  events_of-did : (es : List Event) → events_of (map did es) ≡ es
  unfolding events_of
  events_of-did [] = refl
  events_of-did (e ∷ es) = ap (◌∷◌ e) (events_of-did es)

  InOrder-save :
      (In : Round → Type 0) (seen : List Event) (r : Round) (c : CheckpointBlock)
      → IsRestart In seen c
      → InOrder In seen (save r c)
  InOrder-save In seen r c h = elim (Bool-cases r.save_succeeds) [
    | inl e ↦ rw e (h, tt)
    | inr e ↦ rw e tt
  ]

  show_and_save-InOrder :
      (In : Round → Type 0) (seen : List Event) (r : Round) (s : State) (c : CheckpointBlock)
      (tip : Tip) (events : List Event) (shown : Option MetricsBlock)
      → IsRestart In (seen ++ events) c
      → InOrder In seen (show_and_save r s c tip events shown).0
  unfolding show_and_save
  show_and_save-InOrder In seen r s c tip events none h = InOrder-did In seen events
  show_and_save-InOrder In seen r s c tip events (some shown) h =
      InOrder-append In seen (map did events) (save r c) (InOrder-did In seen events) (
        InOrder-save In (seen ++ events_of (map did events)) r c
          (subst (λ es. IsRestart In (seen ++ es) c) (sym (events_of-did events)) h))

  -- A response that does not panic before its checkpoint is written is one that the checkpoint may name.
  respond-IsRestart :
      (In : Round → Type 0) (r : Round) (s : State) (seen : List Event) {c : CheckpointBlock}
      {tip : Tip} {events : List Event}
      → Recalls setup.accepting.contains_key
      → In r
      → respond setup r s ≡ some (c, tip, events)
      → IsRestart In (seen ++ events) c
  unfolding respond
  respond-IsRestart In r s seen recalls here e =
      let (b, is_last, e1) = >>=-eq_some (last r.chain_blocks) _ e in
      let (c, names, e2) = >>=-eq_some (checkpoint_of b) _ e1 in
      let ((rows, n), removed, e3) =
        >>=-eq_some
          (remove_chain_blocks setup.accepting.scaled r.removed_chain_block_hashes r.acceptances) _
          e2 in
      let (tip, moved, e4) =
        >>=-eq_some
          (tip_step (window setup)
            (record { has_reorg = ltb 0 n; added_blocks_count = length r.added_chain_block_hashes })
            s.tip)
          _ e3 in
      let (written, done, e5) = >>=-eq_some (write_response setup r) _ e4 in
      subst (λ (p : CheckpointBlock × Tip × List Event). IsRestart In (seen ++ p.2) p.0)
        (some-injective e5)
        (IsRestart-grows In written (seen ++ written) c (λ P. Any-append_right P seen written)
          (r, here, b, is_last, names, write_response_accepts r recalls done))

  step-InOrder :
      (In : Round → Type 0) (r : Round) (s : State) (seen : List Event)
      → Recalls setup.accepting.contains_key
      → In r
      → InOrder In seen (step setup r s).0
  unfolding step finish
  step-InOrder In r s seen recalls here = elim (Option-cases (respond setup r s)) [
    | inl e ↦ rw e tt
    | inr ((c, tip, events), e) ↦ rw e (
        show_and_save-InOrder In seen r s c tip events (metrics_block setup.datable c)
          (respond-IsRestart In r s seen recalls here e))
  ]

  next-InOrder :
      (In : Round → Type 0) (seen : List Event) (ran : Ran) (f : State → Ran)
      → InOrder In seen ran.0
      → ((s : State) → InOrder In (seen ++ events_of ran.0) (f s).0)
      → InOrder In seen (next ran f).0
  next-InOrder In seen (first, none) f h k = h
  next-InOrder In seen (first, some s) f h k = InOrder-append In seen first (f s).0 h (k s)

  process-InOrder :
      (In : Round → Type 0) (rs : List Round) (s : State) (seen : List Event)
      → Recalls setup.accepting.contains_key
      → All In rs
      → InOrder In seen (process_virtual_chain setup rs s).0
  unfolding process_virtual_chain
  process-InOrder In [] s seen recalls all = tt
  process-InOrder In (r ∷ rs) s seen recalls all =
      next-InOrder In seen (step setup r s) (process_virtual_chain setup rs)
        (step-InOrder In r s seen recalls all.0)
        (λ s'. process-InOrder In rs s' (seen ++ events_of (step setup r s).0) recalls all.1)

  -- The checkpoints of a part of the actions, up to any of them.
  pub InOrder-saved_after :
      (In : Round → Type 0) (seen : List Event) (xs bs : List Action) (cs : List CheckpointBlock)
      → InOrder In seen (xs ++ bs)
      → All (IsRestart In seen) cs
      → All (IsRestart In (seen ++ events_of xs)) (saved_after xs cs)
  unfolding events_of saved_after
  InOrder-saved_after In seen [] bs cs h k =
      subst (λ es. All (IsRestart In es) cs) (sym (append-nil seen)) k
  InOrder-saved_after In seen (did e ∷ xs) bs cs h k =
      subst (λ es. All (IsRestart In es) (saved_after xs cs))
        (append_assoc seen (e ∷ []) (events_of xs))
        (InOrder-saved_after In (seen ++ e ∷ []) xs bs cs h (
          All-imp
            (λ c. IsRestart-grows In seen (seen ++ e ∷ []) c (λ P. Any-append_left P seen (e ∷ [])))
            cs k))
  InOrder-saved_after In seen (saved c ∷ xs) bs cs h k =
      InOrder-saved_after In seen xs bs (c ∷ cs) h.1 (h.0, k)

-- Whatever responses arrive, and whatever the clock and the database answer, also where a refused
-- statement ends the run in a panic: when a checkpoint of the virtual chain is written, it names the last
-- chain block of a response that arrived, and unless the acceptance of transactions is disabled, accepted
-- statements have inserted already all transactions that this response accepts, each with its acceptance,
-- but for transfers within a group. The cache of ids must not know an id that was not inserted.
pub process_virtual_chain-InOrder :
    (setup : Setup) (rs : List Round)
    → Recalls setup.accepting.contains_key
    → InOrder setup (λ r. Any (λ q. r ≡ q) rs) [] (process_virtual_chain setup rs init).0
process_virtual_chain-InOrder setup rs recalls =
    process-InOrder setup (λ r. Any (λ q. r ≡ q) rs) rs init [] recalls (All-Any rs)
