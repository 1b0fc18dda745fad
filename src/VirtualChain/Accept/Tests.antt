-- ===== src/VirtualChain/Accept/Tests.antt =====
-- A chain block that accepts one transaction twice, and a reorg that removes one of two blocks.
use simply_kaspa_indexer.Prelude.{
  ℕ, ◌/◌, ◌≡◌, refl, true, none, some, List, [], ◌∷◌, All, pos, signed,
}
use simply_kaspa_indexer.Cli.{contains, is_disabled, is_excluded}
use simply_kaspa_indexer.Cli.Contains.{contains-Any}
use simply_kaspa_indexer.Models.{
  Bytes-discrete, bytes_eq, Transaction, AddressTransaction, TransactionAcceptance,
  address_transaction_eq,
}
use simply_kaspa_indexer.Mapping.Rpc.{RpcOptionalTransaction}
use simply_kaspa_indexer.Mapping.Mapper.{new}
use simply_kaspa_indexer.Database.Insert.{
  into_transactions_acceptances, into_transactions, into_addresses_transactions,
}
use simply_kaspa_indexer.Database.Delete.{retain, count, delete_transaction_acceptances}
use simply_kaspa_indexer.Processing.{Event, sent}
use simply_kaspa_indexer.Processing.Samples.{args}
use simply_kaspa_indexer.Processing.Transactions.Inserted.{SentRows}
use simply_kaspa_indexer.Processing.Transactions.Order.{Recalls}
use simply_kaspa_indexer.VirtualChain.Accept.{
  ChainBlock, Setup, accept_row, accept_transactions, remove_chain_blocks,
}
use simply_kaspa_indexer.VirtualChain.Accept.Loops.{BlockAccepted}
use simply_kaspa_indexer.VirtualChain.Accept.Sends.{
  SentAcceptance, accept_transactions-BlockAccepted,
}
use simply_kaspa_indexer.VirtualChain.Accept.Removal.{remove_chain_blocks-delete}

abbrev tx : RpcOptionalTransaction
tx = record {
  version = some 0;
  inputs = [];
  outputs =
      record {
        value = some 500;
        script_public_key = some (14 ∷ []);
        covenant = some none;
        address =
            some (some (record { address_to_string = b'a' ∷ []; payload_to_string = 15 ∷ [] }));
      }
      ∷ [];
  subnetwork_id = some (record { bytes = 0 ∷ []; is_builtin = true });
  payload = some [];
  verbose_data = some (record {
    transaction_id = some (7 ∷ []);
    hash = some (18 ∷ []);
    compute_mass = some 100;
    block_hash = some (1 ∷ []);
    block_time = some 1000;
  });
}

abbrev pub setup : Setup
setup = record {
  args = args;
  mapper = new args;
  scaled = λ n. n / 10;
  contains_key = λ now ids id. contains Bytes-discrete id ids;
}

pub recalls : Recalls setup.contains_key
recalls now ids id known = contains-Any Bytes-discrete id ids known

abbrev pub chain : List ChainBlock
chain =
    record {
      hash = some (30 ∷ []);
      timestamp = some 1000;
      daa_score = some 30;
      blue_score = some 30;
      accepted_transactions = tx ∷ tx ∷ [];
    }
    ∷ []

abbrev row : Transaction
row = record {
  transaction_id = 7 ∷ [];
  subnetwork_id = none;
  hash = some (18 ∷ []);
  mass = some (pos 100);
  payload = none;
  block_time = some (pos 1000);
  version = none;
  inputs = none;
  outputs = some (
      record {
        index = pos 0;
        amount = some (pos 500);
        script_public_key = some (14 ∷ []);
        script_public_key_address = some (15 ∷ []);
        covenant_authorizing_input = none;
        covenant_id = none;
      }
      ∷ []);
  block_hash = some (1 ∷ []);
}

abbrev address_row : AddressTransaction
address_row = record { address = 15 ∷ []; transaction_id = 7 ∷ []; block_time = pos 1000 }

abbrev pub all_events : List Event
all_events =
    sent (
      into_transactions_acceptances
        (accept_row (30 ∷ []) (7 ∷ []) ∷ accept_row (30 ∷ []) (7 ∷ []) ∷ []))
    ∷ sent (into_transactions (row ∷ []) true)
    ∷ sent (into_addresses_transactions (address_row ∷ []))
    ∷ []

accept_chain : accept_transactions setup (λ i j. 0) (λ i. true) chain ≡ some all_events
unfolding accept_transactions is_disabled is_excluded new signed contains Bytes-discrete
    address_transaction_eq
accept_chain = refl

accept_transactions-BlockAccepted_example :
    All (BlockAccepted setup (SentAcceptance all_events) (SentRows all_events)) chain
accept_transactions-BlockAccepted_example =
    accept_transactions-BlockAccepted setup (λ i j. 0) (λ i. true) chain recalls accept_chain

abbrev two_rows : List TransactionAcceptance
two_rows = accept_row (30 ∷ []) (7 ∷ []) ∷ accept_row (31 ∷ []) (8 ∷ []) ∷ []

remove_one :
    remove_chain_blocks (λ n. n / 2000) ((30 ∷ []) ∷ (32 ∷ []) ∷ []) two_rows
    ≡ some (accept_row (31 ∷ []) (8 ∷ []) ∷ [], 1)
unfolding remove_chain_blocks bytes_eq retain count
remove_one = refl

remove_chain_blocks-delete_example :
    ◌≡◌ {A = List TransactionAcceptance × ℕ}
      (accept_row (31 ∷ []) (8 ∷ []) ∷ [], 1)
      (delete_transaction_acceptances ((30 ∷ []) ∷ (32 ∷ []) ∷ []) two_rows)
remove_chain_blocks-delete_example =
    remove_chain_blocks-delete (λ n. n / 2000) ((30 ∷ []) ∷ (32 ∷ []) ∷ []) two_rows remove_one
