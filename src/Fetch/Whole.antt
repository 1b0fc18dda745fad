-- ===== src/Fetch/Whole.antt =====
-- The fetcher, the processors and the checkpoint processor together.
mod Tests
use simply_kaspa_indexer.Prelude.{
  ℕ, ◌<◌, ◌≡◌, refl, sym, ap, ◌∙◌, subst, Bool, true, false, Option, none, some, List, [], ◌∷◌,
  ◌++◌, map, map-append, append_assoc, Bytes, All, Any, All-imp, arith,
}
use mathlib.Core.Path.{ap₂}
use simply_kaspa_indexer.Checkpoint.{CheckpointBlock}
use simply_kaspa_indexer.Checkpoint
use simply_kaspa_indexer.Mapping.Rpc.{RpcBlock}
use simply_kaspa_indexer.Processing.{Event, reported}
use simply_kaspa_indexer.Processing.Blocks
use simply_kaspa_indexer.Processing.Blocks.{checkpoint_of}
use simply_kaspa_indexer.Processing.Saved.{History, HasBlockRows}
use simply_kaspa_indexer.Processing.Saved.Prefix.{map_split, All-map, UpTo, run-UpTo}
use simply_kaspa_indexer.Fetch.Queue.{entered}
use simply_kaspa_indexer.Fetch.Blocks as Fetching
use simply_kaspa_indexer.Fetch.Blocks.{HasCapacity, block_data, goes_on}
use simply_kaspa_indexer.Fetch.Blocks.Stream.{
  Exact, ServedAnswer, Matches, emit_all, received, empty, start_refines,
}

map-append_all :
    {A B : Type 0} (f : A → B) (xs ys : List A) → map f (xs ++ ys) ≡ map f xs ++ map f ys
map-append_all f [] ys = refl
map-append_all f (x ∷ xs) ys = ap (◌∷◌ (f x)) (map-append_all f xs ys)

map-All :
    {A B : Type 0} (f : A → B) (P : B → Type 0) (ls : List A)
    → All (λ a. P (f a)) ls
    → All P (map f ls)
map-All f P [] h = tt
map-All f P (a ∷ ls) h = (h.0, map-All f P ls h.1)

goes_on-injective :
    {A : Type 0} {a b : A} → Fetching.Flow.goes_on a ≡ Fetching.Flow.goes_on b → a ≡ b
goes_on-injective e = cc

-- The checkpoint is that of a block of the stream, and it and all blocks before it have their rows.
abbrev pub StreamUpTo : List RpcBlock → History → CheckpointBlock → Type 0
StreamUpTo out h c =
    (bs : List RpcBlock) × (b : RpcBlock) × (cs : List RpcBlock) × (out ≡ bs ++ b ∷ cs)
    × (checkpoint_of b ≡ c)
    × All (λ b'. HasBlockRows h (checkpoint_of b')) (bs ++ b ∷ [])

stream-UpTo :
    (h : History) (c : CheckpointBlock) (out waiting : List RpcBlock)
    → map block_data out ≡ map (λ (r : Blocks.Round). r.block) h.block_rounds ++ waiting
    → UpTo h c
    → StreamUpTo out h c
unfolding checkpoint_of
stream-UpTo h c out waiting e (xs, r, ys, split, same, rows) =
    let in_order : map block_data out
        ≡ map (λ (r : Blocks.Round). r.block) xs
          ++ r.block ∷ (map (λ (r : Blocks.Round). r.block) ys ++ waiting) =
      e
      ∙ ap (λ (rs : List Blocks.Round). map (λ (r : Blocks.Round). r.block) rs ++ waiting) split
      ∙ ap (λ zs. zs ++ waiting) (map-append_all (λ (r : Blocks.Round). r.block) xs (r ∷ ys))
      ∙ append_assoc (map (λ (r : Blocks.Round). r.block) xs)
          (r.block ∷ map (λ (r : Blocks.Round). r.block) ys) waiting in
    let (bs, b, cs, split', before, same') =
      map_split block_data out (map (λ (r : Blocks.Round). r.block) xs) r.block _ in_order in
    let P = λ (b' : RpcBlock). HasBlockRows h (checkpoint_of b') in
    (
      bs,
      b,
      cs,
      split',
      ap checkpoint_of same' ∙ same,
      All-map block_data P (bs ++ b ∷ []) (
          subst (All P)
            (map-append (λ (r : Blocks.Round). r.block) xs r
              ∙ sym (map-append block_data bs b ∙ ap₂ (λ zs z. zs ++ z ∷ []) before same'))
            (map-All (λ (r : Blocks.Round). r.block) P (xs ++ r ∷ []) rows)),
    )

-- The whole way of a block, at any time of a run of the processors: where the fetcher's queues are bounded,
-- the processors keep popping, no shutdown comes, every last block can be shown and the cache has forgotten
-- nothing, and the blocks that the block processor has popped are those of its rounds, each checkpoint
-- written so far is that of a block of the stream of first arrivals; for it and for every block of
-- the stream before it, accepted statements have inserted already the rows of a block with its hash, time
-- and scores, with those of its parents, where the tables are not disabled. The messages that the checkpoint
-- processor has taken must be ones that the two processors have reported.
pub fetched-UpTo :
    (fetching : Fetching.Setup) (capacity : ℕ) (answers : List Fetching.Round)
    (block_checkpoint : Bytes) (start_time : ℕ) (h : History) (setup : Checkpoint.Setup)
    (rounds : List Checkpoint.Round) (now : ℕ) {f : Fetching.State} {s : Checkpoint.State}
    → HasCapacity fetching capacity
    → 0 < capacity
    → Exact fetching
    → All (λ r. ServedAnswer fetching r.response) answers
    → Fetching.start fetching answers (Fetching.init block_checkpoint start_time) ≡ goes_on f
    → map (λ (r : Blocks.Round). r.block) h.block_rounds ≡ f.blocks_queue.taken
    → All (λ (r : Checkpoint.Round). Any (λ e. e ≡ reported r.message) h.events) rounds
    → Checkpoint.run setup rounds (Checkpoint.init now) ≡ some s
    → All (StreamUpTo (emit_all (received answers) empty).out h) s.saved
fetched-UpTo fetching capacity answers block_checkpoint start_time h setup rounds now {f} {s} laws
      positive exact served fetched popped taken e =
    let (f', fetched', matches) =
      start_refines fetching capacity answers block_checkpoint start_time laws positive exact
        served in
    let same = goes_on-injective (sym fetched' ∙ fetched) in
    let stream =
      subst (λ f. entered f.blocks_queue ≡ map block_data (emit_all (received answers) empty).out)
        same matches.blocks in
    All-imp
      (λ c up_to.
        stream-UpTo h c (emit_all (received answers) empty).out f.blocks_queue.waiting
          (sym stream ∙ ap (λ xs. xs ++ f.blocks_queue.waiting) (sym popped)) up_to)
      s.saved (run-UpTo h setup rounds now taken e)
