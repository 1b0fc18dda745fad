-- ===== src/Fetch/Blocks/Tests.antt =====
-- Three answers: the blocks 1 and 2, an error, and the blocks 2 and 3; and a run without a transaction
-- processor, whose queues hold one item.
use simply_kaspa_indexer.Prelude.{
  ◌++◌, ltb, if◌then◌else◌, ℕ, ◌≤◌, ◌≡◌, refl, true, false, none, some, List, [], ◌∷◌, All, inl,
  inr, arith, length,
}
use simply_kaspa_indexer.Models.{Bytes-discrete}
use simply_kaspa_indexer.Cli.{contains}
use simply_kaspa_indexer.Checkpoint.{known}
use simply_kaspa_indexer.Processing.Blocks.Tests.{block_at}
use simply_kaspa_indexer.Processing.{last}
use simply_kaspa_indexer.Fetch.{Push, Turn}
use simply_kaspa_indexer.Fetch.Queue.{Served, entered}
use simply_kaspa_indexer.Fetch.Blocks.{
  HasCapacity, last, shown_block, Setup, State, Arrival, Round, goes_on, waits, init, start,
  transaction_data,
}
use simply_kaspa_indexer.Fetch.Blocks.Stream.{
  ServedArrival, ServedAnswer, emit, Matches, emit_all, received, empty, Exact, start_refines,
}
use simply_kaspa_indexer.Fetch.Blocks.Stall.{Unattended, start_stalls}

-- A bounded queue.
abbrev bounded : {A : Type 0} → ℕ → Push A
bounded capacity xs a = if ltb (length xs) capacity then some (xs ++ a ∷ []) else none

abbrev pub setup : ℕ → Setup
setup n = record {
  push_block = bounded n;
  push_txs = bounded n;
  contains_key = λ now hashes h. known h hashes;
  datable = λ t. true;
}

abbrev pub exact : (n : ℕ) → Exact (setup n)
exact n now hashes h = refl

pub laws : (n : ℕ) → HasCapacity (setup n) n
laws n = record { blocks = λ xs a. refl; txs = λ xs a. refl }

abbrev turn : ℕ → Turn
turn n = record { popped = n; shutdown = false }

abbrev pub arrival : ℕ → Arrival
arrival n = record {
  block = block_at n;
  lookup_time = 0;
  block_turns = turn 1 ∷ [];
  tx_turns = turn 1 ∷ [];
}

abbrev pub round : List Arrival → Round
round arrivals = record {
  response = some arrivals;
  check_time = 0;
  tip_hashes = none;
  checked_time = 0;
  lag_time = 0;
}

abbrev rounds : List Round
rounds =
    round (arrival 1 ∷ arrival 2 ∷ [])
    ∷ record (round []) { response = none }
    ∷ round (arrival 2 ∷ arrival 3 ∷ [])
    ∷ []

stream : (emit_all (received rounds) empty).out ≡ block_at 1 ∷ block_at 2 ∷ block_at 3 ∷ []
unfolding emit_all emit contains Bytes-discrete
stream = refl

pub turn_ok : Served (turn 1 ∷ [])
turn_ok = ((refl, tt), inl (omega arith))

rounds_ok : All (λ r. ServedAnswer (setup 1) r.response) rounds
unfolding shown_block last
rounds_ok =
    let both : ServedArrival (arrival 1) = (turn_ok, turn_ok) in
    (((both, (both, tt)), (λ e. cc)), (tt, (((both, (both, tt)), (λ e. cc)), tt)))

start_refines_example :
    (s : State) × (start (setup 1) rounds (init (1 ∷ []) 0) ≡ goes_on s)
    × Matches 1 s (emit_all (received rounds) empty)
start_refines_example =
    start_refines (setup 1) 1 rounds (1 ∷ []) 0 (laws 1) (omega arith) (exact 1) rounds_ok

abbrev reached : State
reached = record {
  low_hash = 3 ∷ [];
  last_sync_check = 0;
  synced = false;
  lag_count = 0;
  tip_hashes = [];
  cached = (3 ∷ []) ∷ (2 ∷ []) ∷ (1 ∷ []) ∷ [];
  blocks_queue = record { taken = block_at 1 ∷ block_at 2 ∷ []; waiting = block_at 3 ∷ [] };
  txs_queue = record {
    taken = transaction_data (block_at 1) ∷ transaction_data (block_at 2) ∷ [];
    waiting = transaction_data (block_at 3) ∷ [];
  };
  last_block = some (record { hash = 3 ∷ []; timestamp = 1000; daa_score = 3; blue_score = 3 });
}

-- No transactions are popped.
abbrev lonely : ℕ → Arrival
lonely n = record (arrival n) { tx_turns = turn 0 ∷ turn 0 ∷ [] }

abbrev lonely_rounds : List Round
lonely_rounds = round (lonely 1 ∷ lonely 2 ∷ lonely 3 ∷ []) ∷ []

abbrev stuck : State
stuck = record {
  low_hash = 1 ∷ [];
  last_sync_check = 0;
  synced = false;
  lag_count = 0;
  tip_hashes = [];
  cached = (1 ∷ []) ∷ [];
  blocks_queue = record { taken = block_at 1 ∷ []; waiting = block_at 2 ∷ [] };
  txs_queue = record { taken = []; waiting = transaction_data (block_at 1) ∷ [] };
  last_block = none;
}

run_lonely : start (setup 1) lonely_rounds (init (1 ∷ []) 0) ≡ waits stuck
unfolding start init contains Bytes-discrete
run_lonely = refl

start_stalls_example : length (entered stuck.blocks_queue) ≤ 2
start_stalls_example =
    start_stalls (setup 1) 1 lonely_rounds (1 ∷ []) 0 (laws 1)
      (let on : Unattended (lonely 1) = ((refl, tt), (refl, (refl, tt)), (refl, (refl, tt))) in
        ((on, (on, (on, tt))), tt))
      (inr run_lonely)
