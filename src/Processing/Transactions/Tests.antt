-- ===== src/Processing/Transactions/Tests.antt =====
-- Two blocks: the second holds the transaction of the first again, and one more. The virtual chain is
-- far enough at the second poll.
use simply_kaspa_indexer.Prelude.{
  map, Any, ◌⊎◌, Bool, arith, ℕ, ◌*◌, ◌≡◌, refl, true, false, none, some, List, [], ◌∷◌, pos,
  signed, ◌/◌,
}
use simply_kaspa_indexer.Cli.{contains, is_disabled, is_excluded}
use simply_kaspa_indexer.Cli.Contains.{contains-Any}
use simply_kaspa_indexer.Checkpoint.{CheckpointBlock, CheckpointOrigin}
use simply_kaspa_indexer.Models.{
  address_transaction_eq, Transaction, AddressTransaction, Bytes-discrete,
}
use simply_kaspa_indexer.Mapping.Rpc.{RpcTransaction}
use simply_kaspa_indexer.Mapping.Mapper.{new}
use simply_kaspa_indexer.Database.Insert.{into_transactions, into_addresses_transactions}
use simply_kaspa_indexer.Processing.{last, Event, sent, reported}
use simply_kaspa_indexer.Processing.Samples.{args}
use simply_kaspa_indexer.Processing.Order.{Ordered}
use simply_kaspa_indexer.Processing.Transactions.{
  disable_rejected_transactions, TransactionData, Setup, State, Poll, Round, init, step, commit,
  process_transactions,
}
use simply_kaspa_indexer.Processing.Transactions.Waits.{
  process_transactions-ShowsNone, ShowsAhead, commit_waits,
}
use simply_kaspa_indexer.Processing.Transactions.Order.{
  TxsSent, Recalls, Arrived, process_transactions-Ordered,
}

abbrev tx : ℕ → RpcTransaction
tx n = record {
  version = 0;
  inputs = [];
  outputs =
      record {
        value = 500;
        script_public_key = 14 ∷ [];
        covenant = none;
        address = some (record { address_to_string = b'a' ∷ []; payload_to_string = 15 ∷ [] });
      }
      ∷ [];
  subnetwork_id = record { bytes = 0 ∷ []; is_builtin = true };
  payload = [];
  verbose_data = some (record {
    transaction_id = n ∷ [];
    hash = 18 ∷ [];
    compute_mass = 100;
    block_hash = 1 ∷ [];
    block_time = 1000;
  });
}

abbrev block_of : ℕ → List RpcTransaction → TransactionData
block_of n txs = record {
  transactions = txs;
  block_hash = n ∷ [];
  block_timestamp = 1000;
  block_daa_score = n;
  block_blue_score = n;
}

abbrev pub setup : Setup
setup = record {
  args = args;
  mapper = new args;
  net_bps = 10;
  scaled = λ n. n / 10;
  datable = λ t. true;
  contains_key = λ now ids id. contains Bytes-discrete id ids;
}

pub recalls : Recalls setup.contains_key
recalls now ids id known = contains-Any Bytes-discrete id ids known

abbrev poll : ℕ → Poll
poll n = record {
  vcp_last_block = some (record { hash = 2 ∷ []; timestamp = 1000; daa_score = n; blue_score = n });
  shutdown = false;
}

abbrev round : ℕ → TransactionData → Round
round s d = record {
  transaction_data = d;
  lookup_time = λ i. s * 1_000_000_000;
  check_time = s * 1_000_000_000;
  polls = poll 30 ∷ poll 60 ∷ [];
  accepts = λ i. true;
  commit_time = s * 1_000_000_000;
}

abbrev pub rounds : List Round
rounds = round 1 (block_of 20 (tx 7 ∷ [])) ∷ round 3 (block_of 21 (tx 7 ∷ tx 6 ∷ [])) ∷ []

abbrev row : ℕ → Transaction
row n = record {
  transaction_id = n ∷ [];
  subnetwork_id = none;
  hash = some (18 ∷ []);
  mass = some (pos 100);
  payload = none;
  block_time = some (pos 1000);
  version = none;
  inputs = none;
  outputs = some (
      record {
        index = pos 0;
        amount = some (pos 500);
        script_public_key = some (14 ∷ []);
        script_public_key_address = some (15 ∷ []);
        covenant_authorizing_input = none;
        covenant_id = none;
      }
      ∷ []);
  block_hash = some (1 ∷ []);
}

abbrev address_row : ℕ → AddressTransaction
address_row n = record { address = 15 ∷ []; transaction_id = n ∷ []; block_time = pos 1000 }

abbrev pub reported_at : ℕ → CheckpointBlock
reported_at n = record {
  origin = CheckpointOrigin.transactions;
  hash = n ∷ [];
  timestamp = 1000;
  daa_score = n;
  blue_score = n;
}

abbrev pub all_events : List Event
all_events =
    sent (into_transactions (row 6 ∷ row 7 ∷ []) false)
    ∷ sent (into_addresses_transactions (address_row 6 ∷ address_row 7 ∷ []))
    ∷ reported (reported_at 20)
    ∷ reported (reported_at 21)
    ∷ []

abbrev pub final : State
final = record {
  transactions = [];
  tx_address_transactions = [];
  tx_script_transactions = [];
  checkpoint_blocks = [];
  last_commit_time = 3 * 1_000_000_000;
  cached = (6 ∷ []) ∷ (7 ∷ []) ∷ [];
  last_block = some (record { hash = 21 ∷ []; timestamp = 1000; daa_score = 21; blue_score = 21 });
}

pub run_rounds : process_transactions setup rounds (init 0) ≡ some (final, all_events)
unfolding process_transactions step is_disabled is_excluded init new signed contains Bytes-discrete
    address_transaction_eq
run_rounds = refl

process_transactions-Ordered_example : Ordered (TxsSent setup (Arrived rounds)) [] all_events
process_transactions-Ordered_example =
    process_transactions-Ordered setup rounds 0 recalls run_rounds

abbrev two_waiting : State
two_waiting = record final { checkpoint_blocks = reported_at 20 ∷ reported_at 21 ∷ []; cached = [] }

abbrev stopped : Round
stopped = record (round 3 (block_of 21 [])) {
  polls = poll 30 ∷ record (poll 40) { shutdown = true } ∷ [];
}

nothing_done : commit setup stopped two_waiting ≡ some (false, two_waiting, [])
unfolding commit is_disabled
nothing_done = refl

commit_waits_example :
    (◌≡◌ {A = Bool} false false × (two_waiting ≡ two_waiting) × ◌≡◌ {A = List Event} [] [])
    ⊎ ((c : CheckpointBlock) × (last two_waiting.checkpoint_blocks ≡ some c)
        × Any (ShowsAhead 10 c.daa_score) stopped.polls)
unfolding is_disabled contains
commit_waits_example = commit_waits setup stopped two_waiting (omega arith) refl nothing_done

-- The same rounds beside a virtual chain processor that is disabled.
abbrev blind : Round → Round
blind r = record r { polls = record { vcp_last_block = none; shutdown = false } ∷ [] }

abbrev waiting : State
waiting = record {
  transactions = row 7 ∷ row 6 ∷ [];
  tx_address_transactions = address_row 7 ∷ address_row 6 ∷ [];
  tx_script_transactions = [];
  checkpoint_blocks = reported_at 20 ∷ reported_at 21 ∷ [];
  last_commit_time = 0;
  cached = (6 ∷ []) ∷ (7 ∷ []) ∷ [];
  last_block = none;
}

run_blind : process_transactions setup (map blind rounds) (init 0) ≡ some (waiting, [])
unfolding process_transactions step is_disabled is_excluded init new signed contains Bytes-discrete
    address_transaction_eq
run_blind = refl

process_transactions-ShowsNone_example : ◌≡◌ {A = List Event} [] []
unfolding is_disabled
process_transactions-ShowsNone_example =
    process_transactions-ShowsNone setup (map blind rounds) 0 kept ((refl, tt), ((refl, tt), tt))
      run_blind
  where
    kept : disable_rejected_transactions setup ≡ false
    kept = refl
