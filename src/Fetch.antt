-- ===== src/Fetch.antt =====
-- indexer/src/blocks/fetch_blocks.rs and indexer/src/virtual_chain/fetch_virtual_chain.rs: what is asked of
-- the node. The queues to the processors are crossbeam's `ArrayQueue`: what its `push` answers is an argument.
pub mod Queue
pub mod Blocks
pub mod Chain
pub mod Whole
use simply_kaspa_indexer.Prelude.{
  none, Option, ◌≡◌, some, ℕ, ◌+◌, Bool, true, false, List, [], ◌∷◌, ◌++◌, length, take, drop, ltb,
  if◌then◌else◌,
}

-- What goes through a queue: `taken` is what the processor has popped so far, oldest first, and `waiting`
-- what is still queued.
pub record Traffic (A : Type 0) : Type 0 where
  pub taken : List A
  pub waiting : List A

-- One turn of a loop that pushes: how many items the processor pops before it, and whether the program
-- is told to stop by then.
pub record Turn : Type 0 where
  pub popped : ℕ
  pub shutdown : Bool

module _ {A : Type 0} where
  unfoldable pub pop : ℕ → Traffic A → Traffic A
  pop n q = record { taken = q.taken ++ take n q.waiting; waiting = drop n q.waiting }

-- The queue behind `push`, by what waits in it, or none where it gives the item back.
abbrev pub Push : Type 0 → Type 0
Push A = List A → A → Option (List A)

-- What `ArrayQueue` documents: it takes items at its end, up to its capacity.
abbrev pub IsBounded : {A : Type 0} → ℕ → Push A → Type 0
IsBounded {A} capacity push =
    (xs : List A) (a : A)
    → push xs a ≡ (if ltb (length xs) capacity then some (xs ++ a ∷ []) else none)

-- Where a loop that pushes stands behind its last turn: past it, or asleep with the queue full.
pub data Pushing (A : Type 0) : Type 0 where
  past : Traffic A → Pushing A
  asleep : Traffic A → Pushing A

-- `while !is_shutdown() { match queue.push(a) { Ok(_) => break, Err(_) => sleep } }`.
unfoldable pub push_loop : {A : Type 0} → Push A → A → List Turn → Traffic A → Pushing A
unfolding pop
push_loop push a [] q = asleep q
push_loop push a (t ∷ ts) q =
    let q' = pop t.popped q in
    let later = push_loop push a ts q' in
    if t.shutdown
    then past q'
    else elim (push q'.waiting a) [ some xs ↦ past (record q' { waiting = xs }) | none ↦ later ]
