-- ===== src/Fetch/Blocks.antt =====
-- indexer/src/blocks/fetch_blocks.rs: `KaspaBlocksFetcher`. A round of its loop is an answer of the node.
-- The cache of hashes is moka's: `contains_key now hashes hash` is its answer at a time when `hashes` have
-- been inserted, newest first. What is logged is left out, with `txs_len`, which is only logged.
pub mod Ends
pub mod Stream
pub mod Stall
pub mod Delivered
pub mod Tests
use simply_kaspa_indexer.Prelude.{
  ◌>>=◌, ℕ, ◌+◌, ◌-◌, ◌/◌, Bool, true, false, not, ◌&&◌, Option, none, some, List, [], ◌∷◌, map,
  Bytes, ℤ, as_i64, pos_part, neg_part, ltb, leb, length, if◌then◌else◌,
}
use simply_kaspa_indexer.Checkpoint.{known, seconds_since}
use simply_kaspa_indexer.Mapping.Rpc.{RpcBlock}
use simply_kaspa_indexer.Processing.{MetricsBlock, update_last_block, last}
use simply_kaspa_indexer.Processing.Transactions.{TransactionData}
use simply_kaspa_indexer.Fetch.{Push, IsBounded, Pushing, Traffic, Turn, past, asleep, push_loop}

-- `push_block` and `push_txs` are the `push` of the two queues.
pub record Setup : Type 0 where
  pub push_block : Push RpcBlock
  pub push_txs : Push TransactionData
  pub contains_key : ℕ → List Bytes → Bytes → Bool
  pub datable : ℤ → Bool

-- Both queues have this capacity, as main.rs makes them.
pub record HasCapacity (setup : Setup) (capacity : ℕ) : Type 0 where
  pub blocks : IsBounded capacity setup.push_block
  pub txs : IsBounded capacity setup.push_txs

-- The fetcher, its queues, and `metrics.components.block_fetcher.last_block`.
pub record State : Type 0 where
  pub low_hash : Bytes
  pub last_sync_check : ℕ
  pub synced : Bool
  pub lag_count : ℕ
  pub tip_hashes : List Bytes
  pub cached : List Bytes
  pub blocks_queue : Traffic RpcBlock
  pub txs_queue : Traffic TransactionData
  pub last_block : Option MetricsBlock

-- A block of an answer, the time at which the cache is asked for it, and the turns of the two loops
-- that push it.
pub record Arrival : Type 0 where
  pub block : RpcBlock
  pub lookup_time : ℕ
  pub block_turns : List Turn
  pub tx_turns : List Turn

-- `response` is missing at an error. The times are the clock at the sync check and behind it, and the
-- seconds that `check_lag` reads.
pub record Round : Type 0 where
  pub response : Option (List Arrival)
  pub check_time : ℕ
  pub tip_hashes : Option (List Bytes)
  pub checked_time : ℕ
  pub lag_time : ℕ

-- A part of the loop goes on, is asleep in front of a full queue, or has panicked.
pub data Flow (A : Type 0) : Type 0 where
  goes_on : A → Flow A
  waits : State → Flow A
  panicked : Flow A

infixl 5 ◌>>>◌
abbrev pub ◌>>>◌ : {A B : Type 0} → Flow A → (A → Flow B) → Flow B
goes_on a >>> f = f a
waits s >>> f = waits s
panicked >>> f = panicked

unfoldable pub init : Bytes → ℕ → State
init block_checkpoint now = record {
  low_hash = block_checkpoint;
  last_sync_check = now - 30000000000;
  synced = false;
  lag_count = 0;
  tip_hashes = [];
  cached = [];
  blocks_queue = record { taken = []; waiting = [] };
  txs_queue = record { taken = []; waiting = [] };
  last_block = none;
}

abbrev pub transaction_data : RpcBlock → TransactionData
transaction_data b = record {
  transactions = b.transactions;
  block_hash = b.header.hash;
  block_timestamp = b.header.timestamp;
  block_daa_score = b.header.daa_score;
  block_blue_score = b.header.blue_score;
}

-- `BlockData`, without the transactions.
abbrev pub block_data : RpcBlock → RpcBlock
block_data b = record b { transactions = [] }

-- Whether the newest block is half a minute old: the difference of the clock's seconds and of those of
-- the timestamp as an i64, whose division rounds to zero.
unfoldable pub is_lagging : ℕ → ℕ → Bool
is_lagging now newest_block_timestamp =
    let z = as_i64 newest_block_timestamp in leb (30 + pos_part z / 1000) (now + neg_part z / 1000)

unfoldable pub check_lag : ℕ → Bool → ℕ → ℕ → ℕ
unfolding is_lagging
check_lag now synced lag_count newest_block_timestamp =
    if synced && is_lagging now newest_block_timestamp
    then (if leb 15 lag_count then 0 else lag_count + 1)
    else 0

-- The variables of `handle_blocks`.
pub record Walk : Type 0 where
  pub newest_block_timestamp : ℕ
  pub block_hash : Bytes
  pub fetcher : State

-- What is noted of a block before the cache is asked for it.
unfoldable pub notice : RpcBlock → Walk → Walk
notice b w =
    let s = w.fetcher in
    record {
      newest_block_timestamp =
          if s.synced && ltb w.newest_block_timestamp b.header.timestamp
          then b.header.timestamp
          else w.newest_block_timestamp;
      block_hash = b.header.hash;
      fetcher = record s {
        synced = if not s.synced && known b.header.hash s.tip_hashes then true else s.synced;
      };
    }

-- What follows a loop that pushes; `f` puts the queue back.
abbrev pub behind : {A : Type 0} → (Traffic A → State) → Pushing A → Flow State
behind f (past q) = goes_on (f q)
behind f (asleep q) = waits (f q)

unfoldable pub deliver : Setup → Arrival → State → Flow State
unfolding push_loop
deliver setup a s =
    behind (λ q. record s { blocks_queue = q })
      (push_loop setup.push_block (block_data a.block) a.block_turns s.blocks_queue)
    >>> (λ s₁.
        behind (λ q. record s₁ { txs_queue = q })
          (push_loop setup.push_txs (transaction_data a.block) a.tx_turns s₁.txs_queue)
        >>> (λ s₂. goes_on (record s₂ { cached = a.block.header.hash ∷ s₂.cached })))

-- One round of the loop over the blocks.
unfoldable pub visit : Setup → Arrival → Walk → Flow Walk
unfolding notice deliver
visit setup a w =
    let w' = notice a.block w in
    if setup.contains_key a.lookup_time w'.fetcher.cached w'.block_hash
    then goes_on w'
    else (deliver setup a w'.fetcher >>> λ s. goes_on (record w' { fetcher = s }))

unfoldable pub visit_all : Setup → List Arrival → Walk → Flow Walk
unfolding visit
visit_all setup [] w = goes_on w
visit_all setup (a ∷ arrivals) w = visit setup a w >>> visit_all setup arrivals

unfoldable pub handle_blocks : Setup → ℕ → List Arrival → State → Flow State
unfolding visit_all check_lag
handle_blocks setup now arrivals s =
    visit_all setup arrivals
      (record { newest_block_timestamp = 0; block_hash = s.low_hash; fetcher = s })
    >>> λ w. goes_on (record w.fetcher {
      low_hash = w.block_hash;
      lag_count = check_lag now w.fetcher.synced w.fetcher.lag_count w.newest_block_timestamp;
    })

-- The tips are asked for again at most every thirty seconds, until the fetcher is synced.
unfoldable pub sync_check : Round → ℕ → State → State
sync_check r blocks_len s =
    if not s.synced && (ltb blocks_len 100 && leb 30 (seconds_since r.check_time s.last_sync_check))
    then (elim r.tip_hashes [
      | none ↦ s
      | some tips ↦ record s { tip_hashes = tips; last_sync_check = r.checked_time }
    ])
    else s

-- What the metrics show of the last block; one without verbose data, or at a time that chrono does not
-- take, is a panic.
unfoldable pub shown_block : Setup → Option RpcBlock → Option MetricsBlock
shown_block setup o = do
  b ← o
  v ← b.verbose_data
  if setup.datable (as_i64 b.header.timestamp)
      then some (record {
        hash = v.hash;
        timestamp = b.header.timestamp;
        daa_score = b.header.daa_score;
        blue_score = b.header.blue_score;
      })
      else none

unfoldable pub show_last : Setup → Option RpcBlock → State → Flow State
unfolding update_last_block shown_block
show_last setup o s = elim (shown_block setup o) [
  | none ↦ panicked
  | some b ↦ goes_on (record s { last_block = update_last_block b s.last_block })
]

-- An answer of at most one block changes nothing else, and an error nothing.
unfoldable pub receive : Setup → Round → Option (List Arrival) → State → Flow State
unfolding handle_blocks sync_check show_last last
receive setup r none s = goes_on s
receive setup r (some arrivals) s =
    let s' = sync_check r (length arrivals) s in
    if ltb 1 (length arrivals)
    then (handle_blocks setup r.lag_time arrivals s'
        >>> show_last setup (last (map (λ a. a.block) arrivals)))
    else goes_on s'

unfoldable pub step : Setup → Round → State → Flow State
unfolding receive
step setup r s = receive setup r r.response s

-- `start`: the rounds up to a shutdown.
unfoldable pub start : Setup → List Round → State → Flow State
unfolding step
start setup [] s = goes_on s
start setup (r ∷ rounds) s = step setup r s >>> start setup rounds
