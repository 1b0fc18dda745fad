-- ===== src/VirtualChain/Responses.antt =====
-- indexer/src/virtual_chain/process_virtual_chain.rs: the loop over the node's responses, put together
-- of the parts in VirtualChain and VirtualChain.Accept. A round is a response with the table of
-- acceptances that its removal meets; a shutdown ends the rounds. What the loop does to the database is a
-- list of actions in their order, which a panic ends; statements that a response sends before one of
-- them is refused, and the deletes of the removal, are not listed.
pub mod Saved
pub mod Tests
use simply_kaspa_indexer.Prelude.{
  ℕ, Bool, Option, none, some, List, [], ◌∷◌, ◌++◌, map, Bytes, ℤ, ltb, length, if◌then◌else◌,
  ◌>>=◌,
}
use simply_kaspa_indexer.Cli.{transaction_acceptance, is_disabled}
use simply_kaspa_indexer.Models.{TransactionAcceptance}
use simply_kaspa_indexer.Checkpoint.{CheckpointBlock, CheckpointOrigin}
use simply_kaspa_indexer.Database.Insert.{Insertion}
use simply_kaspa_indexer.Processing.{Event, MetricsBlock, metrics_block, update_last_block, last}
use simply_kaspa_indexer.VirtualChain.{Tip, start, tip_step, tip_distance_window}
use simply_kaspa_indexer.VirtualChain
use simply_kaspa_indexer.VirtualChain.Accept
use simply_kaspa_indexer.VirtualChain.Accept.{
  ChainBlock, accept_transactions, add_chain_blocks, remove_chain_blocks,
}

pub record Setup : Type 0 where
  pub accepting : Accept.Setup
  pub datable : ℤ → Bool

pub record Round : Type 0 where
  pub removed_chain_block_hashes : List Bytes
  pub added_chain_block_hashes : List Bytes
  pub chain_blocks : List ChainBlock
  pub acceptances : List TransactionAcceptance
  pub time : ℕ → ℕ → ℕ
  pub accepts : Insertion → Bool
  pub save_succeeds : Bool

-- The tip, and `metrics.components.virtual_chain_processor.last_block`.
pub record State : Type 0 where
  pub tip : Tip
  pub last_block : Option MetricsBlock

abbrev pub init : State
init = record { tip = start; last_block = none }

-- An accepted statement, or the write of a checkpoint that the database accepts.
pub data Action : Type 0 where
  did : Event → Action
  saved : CheckpointBlock → Action

-- The actions of a part of the run, and its end: the state that it goes on with, or a panic.
abbrev pub Ran : Type 0
Ran = List Action × Option State

-- The window of the options.
abbrev pub window : Setup → ℕ
window setup = tip_distance_window setup.accepting.args.vcp_window setup.accepting.args.vcp_interval

abbrev pub disable_transaction_acceptance : Setup → Bool
disable_transaction_acceptance setup = is_disabled setup.accepting.args transaction_acceptance

-- The block that the checkpoint names; the option is the panic of `unwrap`.
unfoldable pub checkpoint_of : ChainBlock → Option CheckpointBlock
checkpoint_of b = do
  hash ← b.hash
  timestamp ← b.timestamp
  daa_score ← b.daa_score
  blue_score ← b.blue_score
  some (record {
    origin = CheckpointOrigin.vcp;
    hash = hash;
    timestamp = timestamp;
    daa_score = daa_score;
    blue_score = blue_score;
  })

unfoldable pub write_response : Setup → Round → Option (List Event)
unfolding accept_transactions add_chain_blocks
write_response setup r =
    if disable_transaction_acceptance setup
    then add_chain_blocks setup.accepting.scaled r.accepts r.added_chain_block_hashes
    else accept_transactions setup.accepting r.time r.accepts r.chain_blocks

-- What a response leads to, up to its last statement; `none` is a panic.
unfoldable pub respond : Setup → Round → State → Option (CheckpointBlock × Tip × List Event)
unfolding last checkpoint_of remove_chain_blocks tip_step write_response
respond setup r s = do
  last_block ← last r.chain_blocks
  checkpoint ← checkpoint_of last_block
  (rows, rows_removed) ←
      remove_chain_blocks setup.accepting.scaled r.removed_chain_block_hashes r.acceptances
  tip ←
      tip_step (window setup)
        (record {
          has_reorg = ltb 0 rows_removed;
          added_blocks_count = length r.added_chain_block_hashes;
        })
        s.tip
  events ← write_response setup r
  some (checkpoint, tip, events)

-- `save_vcp_checkpoint`.
abbrev pub save : Round → CheckpointBlock → List Action
save r checkpoint = if r.save_succeeds then saved checkpoint ∷ [] else []

-- The metrics, then the checkpoint. The block that is shown is `none` at a panic.
unfoldable pub show_and_save :
    Round → State → CheckpointBlock → Tip → List Event → Option MetricsBlock → Ran
unfolding update_last_block
show_and_save r s checkpoint tip events none = (map did events, none)
show_and_save r s checkpoint tip events (some shown) = (
  map did events ++ save r checkpoint,
  some (record { tip = tip; last_block = update_last_block shown s.last_block }),
)

unfoldable pub finish : Setup → Round → State → Option (CheckpointBlock × Tip × List Event) → Ran
unfolding show_and_save metrics_block
finish setup r s none = ([], none)
finish setup r s (some (checkpoint, tip, events)) =
    show_and_save r s checkpoint tip events (metrics_block setup.datable checkpoint)

unfoldable pub step : Setup → Round → State → Ran
unfolding respond finish
step setup r s = finish setup r s (respond setup r s)

abbrev pub next : Ran → (State → Ran) → Ran
next (first, none) f = (first, none)
next (first, some s) f = (first ++ (f s).0, (f s).1)

unfoldable pub process_virtual_chain : Setup → List Round → State → Ran
process_virtual_chain setup [] s = ([], some s)
process_virtual_chain setup (r ∷ rs) s = next (step setup r s) (process_virtual_chain setup rs)

-- The checkpoints that some actions have written, newest first, on top of earlier ones.
unfoldable pub saved_after : List Action → List CheckpointBlock → List CheckpointBlock
saved_after [] cs = cs
saved_after (did e ∷ actions) cs = saved_after actions cs
saved_after (saved c ∷ actions) cs = saved_after actions (c ∷ cs)

unfoldable pub events_of : List Action → List Event
events_of [] = []
events_of (did e ∷ actions) = e ∷ events_of actions
events_of (saved c ∷ actions) = events_of actions
