-- ===== src/VirtualChain/Responses/Tests.antt =====
-- One response with one chain block, whose checkpoint is written.
use simply_kaspa_indexer.Prelude.{
  ◌≡◌, refl, true, false, some, none, List, [], ◌∷◌, ◌++◌, map, Any, signed,
}
use simply_kaspa_indexer.Cli.{contains, is_disabled, is_excluded}
use simply_kaspa_indexer.Models.{Bytes-discrete, address_transaction_eq}
use simply_kaspa_indexer.Checkpoint.{CheckpointBlock, CheckpointOrigin}
use simply_kaspa_indexer.Mapping.Mapper.{new}
use simply_kaspa_indexer.VirtualChain.Accept.Tests as OfAccept
use simply_kaspa_indexer.VirtualChain.Responses.{
  Setup, Round, State, init, process_virtual_chain, step, Action, did, saved, saved_after,
}
use simply_kaspa_indexer.VirtualChain.Responses.Saved.{InOrder, process_virtual_chain-InOrder}

abbrev pub setup : Setup
setup = record { accepting = OfAccept.setup; datable = λ t. true }

abbrev round : Round
round = record {
  removed_chain_block_hashes = [];
  added_chain_block_hashes = (30 ∷ []) ∷ [];
  chain_blocks = OfAccept.chain;
  acceptances = [];
  time = λ i j. 0;
  accepts = λ i. true;
  save_succeeds = true;
}

abbrev pub rounds : List Round
rounds = round ∷ []

abbrev refused_rounds : List Round
refused_rounds = record round { accepts = λ i. false } ∷ round ∷ []

abbrev pub checkpoint : CheckpointBlock
checkpoint = record {
  origin = CheckpointOrigin.vcp;
  hash = 30 ∷ [];
  timestamp = 1000;
  daa_score = 30;
  blue_score = 30;
}

abbrev pub final : State
final = record {
  tip = record { tip_distance = 9; tip_distance_history = false ∷ [] };
  last_block = some (record { hash = 30 ∷ []; timestamp = 1000; daa_score = 30; blue_score = 30 });
}

-- The statements, then the checkpoint.
abbrev pub actions : List Action
actions = map did OfAccept.all_events ++ saved checkpoint ∷ []

unfolds : Unit {0}
unfolding process_virtual_chain step is_disabled is_excluded new signed contains Bytes-discrete
    address_transaction_eq
unfolds = tt

process_rounds : process_virtual_chain setup rounds init ≡ (actions, some final)
unfolding unfolds
process_rounds = refl

pub actions_of_rounds : (process_virtual_chain setup rounds init).0 ≡ actions ++ []
unfolding unfolds
actions_of_rounds = refl

pub saved_by_actions : saved_after actions [] ≡ checkpoint ∷ []
unfolding saved_after
saved_by_actions = refl

process_virtual_chain-InOrder_example : InOrder setup (λ r. Any (λ q. r ≡ q) rounds) [] actions
unfolding unfolds
process_virtual_chain-InOrder_example = process_virtual_chain-InOrder setup rounds OfAccept.recalls

-- A refused statement is a panic, and no checkpoint is written.
refused : process_virtual_chain setup refused_rounds init ≡ ([], none)
unfolding unfolds
refused = refl
