-- ===== src/Fetch/Chain/Tests.antt =====
-- A response whose last block is more than five minutes ahead of the block processor at first.
use simply_kaspa_indexer.Prelude.{ℕ, ◌≡◌, refl, true, false, none, some, List, [], ◌∷◌}
use simply_kaspa_indexer.Processing.{MetricsBlock}
use simply_kaspa_indexer.Fetch.Chain.{
  Response, Poll, Round, Event, asked, sent, saw, fetch_virtual_chain,
}
use simply_kaspa_indexer.Fetch.Chain.Follows.{Follows, fetch_virtual_chain-Follows}

abbrev block_at : ℕ → MetricsBlock
block_at n = record { hash = n ∷ []; timestamp = 1000; daa_score = n; blue_score = n }

abbrev response : Response
response = record {
  removed_chain_block_hashes = [];
  added_chain_block_hashes = (29 ∷ []) ∷ (30 ∷ []) ∷ [];
  chain_block_accepted_transactions =
      record {
        hash = some (30 ∷ []);
        timestamp = some 1000;
        daa_score = some 4000;
        blue_score = some 4000;
        accepted_transactions = [];
      }
      ∷ [];
}

abbrev poll : ℕ → Poll
poll n = record { last_block = some (block_at n); shutdown = false }

abbrev idle : Round
idle = record {
  shutdown = false;
  tip_distance = some 9;
  response = some none;
  send_succeeds = true;
  polls = [];
}

abbrev rounds : List Round
rounds =
    record idle { response = none; tip_distance = none }
    ∷ record idle { response = some (some response); polls = poll 900 ∷ poll 1100 ∷ [] }
    ∷ idle
    ∷ record idle { shutdown = true }
    ∷ []

abbrev events : List Event
events =
    asked (1 ∷ []) 9
    ∷ sent response
    ∷ saw (some (block_at 900))
    ∷ saw (some (block_at 1100))
    ∷ asked (30 ∷ []) 9
    ∷ []

run_rounds : fetch_virtual_chain 10 rounds (1 ∷ []) ≡ some events
unfolding fetch_virtual_chain
run_rounds = refl

fetch_virtual_chain-Follows_example : Follows 10 (1 ∷ []) events
fetch_virtual_chain-Follows_example = fetch_virtual_chain-Follows 10 rounds (1 ∷ []) run_rounds
