-- ===== src/Fetch/Blocks/Delivered.antt =====
-- What the processors can rely on while the cache may forget: nothing that was received is lost.
use simply_kaspa_indexer.Prelude.{
  not, not, ◌≡◌, ◌⊎◌, Option, none, some, List, [], ◌∷◌, ◌++◌, Bytes, All, Any,
}
use simply_kaspa_indexer.Mapping.Rpc.{RpcBlock}
use simply_kaspa_indexer.Fetch.Queue.{entered, Running}
use simply_kaspa_indexer.Fetch.Blocks.Ends.{Ends}
use simply_kaspa_indexer.Fetch.Blocks.{State, Arrival, Walk, block_data}

-- A block and the transactions of a block with this hash have been queued.
abbrev pub InBoth : State → Bytes → Type 0
InBoth s h =
    Any (λ b. b.header.hash ≡ h) (entered s.blocks_queue)
    × Any (λ d. d.block_hash ≡ h) (entered s.txs_queue)

abbrev Covers : State → Type 0
Covers s = All (InBoth s) s.cached

abbrev Extends : State → State → Type 0
Extends s s' = (h : Bytes) → InBoth s h → InBoth s' h

abbrev pub RunningArrival : Arrival → Type 0
RunningArrival a = Running a.block_turns × Running a.tx_turns

abbrev pub RunningAnswer : Option (List Arrival) → Type 0
RunningAnswer none = Unit
RunningAnswer (some arrivals) = All RunningArrival arrivals

-- Nothing is said of a fetcher that waits.
abbrev Anywhere : State → Type 0
Anywhere s = Unit

record Later (s : State) (bs : List RpcBlock) (s' : State) : Type 0 where
  covers : Covers s'
  extends : Extends s s'
  delivered : All (λ b. InBoth s' b.header.hash) bs
  low : (s'.low_hash ≡ s.low_hash) ⊎ InBoth s' s'.low_hash

module _ (a : Arrival) (s : State) where
  -- Behind the first of the two loops.
  record HasBlock (s' : State) : Type 0 where
    blocks : entered s'.blocks_queue ≡ entered s.blocks_queue ++ block_data a.block ∷ []
    txs : s'.txs_queue ≡ s.txs_queue
    cached : s'.cached ≡ s.cached
    low : s'.low_hash ≡ s.low_hash

-- The same of the loop over the blocks, with its last hash.
record WalkLater (w : Walk) (bs : List RpcBlock) (w' : Walk) : Type 0 where
  later : Later w.fetcher bs w'.fetcher
  hash : (w'.block_hash ≡ w.block_hash) ⊎ InBoth w'.fetcher w'.block_hash
