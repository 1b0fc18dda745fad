-- ===== src/Processing/Saved/Prefix.antt =====
-- No gap: behind a written checkpoint stand the rows of all blocks that came before it.
use mathlib.Core.Path.{ap₂}
use simply_kaspa_indexer.Prelude.{
  map-append, ℕ, ◌≡◌, refl, sym, ap, ◌∙◌, subst, some, List, [], ◌∷◌, ◌++◌, map, append_assoc,
  gather, gather-append, All, Any, All-imp, All-Any_elim, inl, inr,
}
use simply_kaspa_indexer.Checkpoint.{CheckpointBlock, CheckpointOrigin}
use simply_kaspa_indexer.Checkpoint
use simply_kaspa_indexer.Checkpoint.Safety.{run-saved}
use simply_kaspa_indexer.Processing.{Event, sent, reported}
use simply_kaspa_indexer.Processing.Blocks
use simply_kaspa_indexer.Processing.Blocks.{checkpoint_of}
use simply_kaspa_indexer.Processing.Blocks.Commit.{report}
use simply_kaspa_indexer.Processing.Blocks.Flow.{process_blocks-flow}
use simply_kaspa_indexer.Processing.Saved.{
  reported-injective, History, HasBlockRows, block_reported, reported_by_blocks,
}

module _ {A B : Type 0} (f : A → B) where
  head-injective : {b c : B} {bs cs : List B} → b ∷ bs ≡ c ∷ cs → b ≡ c
  head-injective e = cc

  tail-injective : {b c : B} {bs cs : List B} → b ∷ bs ≡ c ∷ cs → bs ≡ cs
  tail-injective e = cc

  -- A list whose images are split is split there.
  pub map_split :
      (ls : List A) (ps : List B) (c : B) (zs : List B)
      → map f ls ≡ ps ++ c ∷ zs
      → (xs : List A) × (a : A) × (ys : List A) × (ls ≡ xs ++ a ∷ ys) × (map f xs ≡ ps) × (f a ≡ c)
  map_split [] [] c zs e = cc
  map_split [] (p ∷ ps) c zs e = cc
  map_split (a ∷ ls) [] c zs e = ([], a, ls, refl, refl, head-injective e)
  map_split (a ∷ ls) (p ∷ ps) c zs e =
      let (xs, b, ys, split, images, same) = map_split ls ps c zs (tail-injective e) in
      (a ∷ xs, b, ys, ap (◌∷◌ a) split, cc, same)

  pub All-map : (P : B → Type 0) (ls : List A) → All P (map f ls) → All (λ a. P (f a)) ls
  All-map P [] h = tt
  All-map P (a ∷ ls) h = (h.0, All-map P ls h.1)

-- The reports among some events, and where one of them stands.
report_members : (es : List Event) → All (λ p. Any (λ e. e ≡ reported p) es) (gather report es)
report_members [] = tt
report_members (sent i ∷ es) = All-imp (λ p found. inr found) (gather report es) (report_members es)
report_members (reported c ∷ es) =
    (inl refl, All-imp (λ p found. inr found) (gather report es) (report_members es))

report_split :
    (es : List Event) (c : CheckpointBlock)
    → Any (λ e. e ≡ reported c) es
    → (ps qs : List CheckpointBlock) × (gather report es ≡ ps ++ c ∷ qs)
report_split [] c found = absurd found
report_split (sent i ∷ es) c (inl same) = cc
report_split (sent i ∷ es) c (inr found) = report_split es c found
report_split (reported d ∷ es) c (inl same) =
    ([], gather report es, ap (λ x. x ∷ gather report es) (reported-injective same))
report_split (reported d ∷ es) c (inr found) =
    let (ps, qs, e) = report_split es c found in (d ∷ ps, qs, ap (◌∷◌ d) e)

gather-single : {A B : Type 0} (f : A → B) (ls : List A) → gather (λ a. f a ∷ []) ls ≡ map f ls
gather-single f [] = refl
gather-single f (a ∷ ls) = ap (◌∷◌ (f a)) (gather-single f ls)

All-front :
    {A : Type 0} (P : A → Type 0) (xs : List A) (a : A) (ys : List A)
    → All P (xs ++ a ∷ ys)
    → All P (xs ++ a ∷ [])
All-front P [] a ys h = (h.0, tt)
All-front P (x ∷ xs) a ys h = (h.0, All-front P xs a ys h.1)

-- The checkpoint is that of an arrival, and it and all arrivals before it have their rows.
abbrev pub UpTo : History → CheckpointBlock → Type 0
UpTo h c =
    (xs : List Blocks.Round) × (r : Blocks.Round) × (ys : List Blocks.Round) × (h.block_rounds
      ≡ xs ++ r ∷ ys)
    × (checkpoint_of r.block ≡ c)
    × All (λ q. HasBlockRows h (checkpoint_of q.block)) (xs ++ r ∷ [])

module _ (h : History) where
  reported-UpTo : (c : CheckpointBlock) → Any (λ e. e ≡ reported c) h.block_events → UpTo h c
  reported-UpTo c found =
      let (ps, qs, e) = report_split h.block_events c found in
      let in_order : map (λ (r : Blocks.Round). checkpoint_of r.block) h.block_rounds
          ≡ ps ++ c ∷ (qs ++ (gather report h.block_rest ++ h.block_state.checkpoint_blocks)) =
        sym (gather-single (λ (r : Blocks.Round). checkpoint_of r.block) h.block_rounds)
        ∙ sym (process_blocks-flow h.block_setup h.block_rounds h.block_start h.block_run).0
        ∙ ap (λ xs. xs ++ h.block_state.checkpoint_blocks)
            (gather-append report h.block_events h.block_rest)
        ∙ append_assoc (gather report h.block_events) (gather report h.block_rest)
            h.block_state.checkpoint_blocks
        ∙ ap (λ xs. xs ++ (gather report h.block_rest ++ h.block_state.checkpoint_blocks)) e
        ∙ append_assoc ps (c ∷ qs)
            (gather report h.block_rest ++ h.block_state.checkpoint_blocks) in
      let (xs, r, ys, split, before, same) =
        map_split (λ (r : Blocks.Round). checkpoint_of r.block) h.block_rounds ps c _ in_order in
      let all_reported : All (HasBlockRows h) (gather report h.block_events) =
        All-imp (block_reported h) (gather report h.block_events) (report_members h.block_events) in
      (
        xs,
        r,
        ys,
        split,
        same,
        All-map (λ (r : Blocks.Round). checkpoint_of r.block) (HasBlockRows h) (xs ++ r ∷ [])
            (subst (All (HasBlockRows h))
              (sym (
                map-append (λ (r : Blocks.Round). checkpoint_of r.block) xs r
                ∙ ap₂ (λ ps c. ps ++ c ∷ []) before same))
              (All-front (HasBlockRows h) ps c qs (subst (All (HasBlockRows h)) e all_reported))),
      )

-- At any time of any interleaving of the block processor and the transaction processor: each
-- checkpoint that the checkpoint processor has written so far is that of a block of the queue, and for this
-- block and every block that came before it, accepted statements have inserted already the rows of a block with its hash, time and
-- scores, with those of its parents, where the tables are not disabled. The messages that the checkpoint processor has taken must be
-- ones that the two processors have reported.
pub run-UpTo :
    (h : History) (setup : Checkpoint.Setup) (rounds : List Checkpoint.Round) (now : ℕ)
    {s : Checkpoint.State}
    → All (λ (r : Checkpoint.Round). Any (λ e. e ≡ reported r.message) h.events) rounds
    → Checkpoint.run setup rounds (Checkpoint.init now) ≡ some s
    → All (UpTo h) s.saved
run-UpTo h setup rounds now {s} taken e =
    All-imp
      (λ c justified.
        All-Any_elim
          (λ r found (same, origin). reported-UpTo h c (
            reported_by_blocks h c (subst (λ x. Any (λ e. e ≡ reported x) h.events) same found)
              origin))
          rounds taken justified.0)
      s.saved (run-saved setup rounds now e)
