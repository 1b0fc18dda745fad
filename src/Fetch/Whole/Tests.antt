-- ===== src/Fetch/Whole/Tests.antt =====
-- The run of Processing.Saved.Tests behind a fetcher that has received its two blocks, and one more.
use simply_kaspa_indexer.Prelude.{◌≡◌, refl, false, some, List, [], ◌∷◌, All, arith}
use simply_kaspa_indexer.Cli.{contains}
use simply_kaspa_indexer.Models.{Bytes-discrete}
use simply_kaspa_indexer.Processing.{last}
use simply_kaspa_indexer.Processing.Blocks.Tests.{block_at}
use simply_kaspa_indexer.Processing.Blocks.Tests as OfBlocks
use simply_kaspa_indexer.Processing.Saved.Tests as OfSaved
use simply_kaspa_indexer.Fetch.Blocks.{
  State, Round, goes_on, init, start, shown_block, transaction_data,
}
use simply_kaspa_indexer.Fetch.Blocks.Stream.{
  ServedAnswer, ServedArrival, emit_all, received, empty,
}
use simply_kaspa_indexer.Fetch.Blocks.Tests.{setup, laws, exact, arrival, round, turn_ok}
use simply_kaspa_indexer.Fetch.Whole.{StreamUpTo, fetched-UpTo}

abbrev answers : List Round
answers = round (arrival 20 ∷ arrival 21 ∷ arrival 22 ∷ []) ∷ []

abbrev reached : State
reached = record {
  low_hash = 22 ∷ [];
  last_sync_check = 0;
  synced = false;
  lag_count = 0;
  tip_hashes = [];
  cached = (22 ∷ []) ∷ (21 ∷ []) ∷ (20 ∷ []) ∷ [];
  blocks_queue = record { taken = block_at 20 ∷ block_at 21 ∷ []; waiting = block_at 22 ∷ [] };
  txs_queue = record {
    taken = transaction_data (block_at 20) ∷ transaction_data (block_at 21) ∷ [];
    waiting = transaction_data (block_at 22) ∷ [];
  };
  last_block = some (record { hash = 22 ∷ []; timestamp = 1000; daa_score = 22; blue_score = 22 });
}

run_answers : start (setup 1) answers (init (20 ∷ []) 0) ≡ goes_on reached
unfolding start init contains Bytes-discrete
run_answers = refl

answers_ok : All (λ r. ServedAnswer (setup 1) r.response) answers
unfolding shown_block last
answers_ok =
    let both : ServedArrival (arrival 20) = (turn_ok, turn_ok) in
    (((both, (both, (both, tt))), (λ e. cc)), tt)

fetched-UpTo_example :
    All
      (StreamUpTo (emit_all (received answers) empty).out OfSaved.history)
      (OfBlocks.reported_at 21 ∷ [])
fetched-UpTo_example =
    fetched-UpTo (setup 1) 1 answers (20 ∷ []) 0 OfSaved.history OfSaved.setup OfSaved.messages 0
      (laws 1) (omega arith) (exact 1) answers_ok run_answers refl OfSaved.messages_taken
      OfSaved.run-messages
