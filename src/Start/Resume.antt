-- ===== src/Start/Resume.antt =====
-- A start behind an earlier run: the checkpoints that the earlier run has written say where it begins.
use simply_kaspa_indexer.Prelude.{
  ℕ, ◌≡◌, refl, ap, ◌∙◌, subst, true, false, Option, none, some, List, [], ◌∷◌, ◌++◌, Bytes, All,
  Any,
}
use simply_kaspa_indexer.Models.{Bytes-discrete, bytes_eq}
use simply_kaspa_indexer.Cli.{CliArgs}
use simply_kaspa_indexer.Checkpoint.{CheckpointBlock}
use simply_kaspa_indexer.Checkpoint
use simply_kaspa_indexer.Database.Vars.{
  Vars, load_block_checkpoint, load_vcp_checkpoint, save_block_checkpoint, save_vcp_checkpoint,
  var_key_block_checkpoint, var_key_vcp_checkpoint, select-upsert_var, select-upsert_var_other,
}
use simply_kaspa_indexer.Processing.{reported}
use simply_kaspa_indexer.Processing.Transactions.Order.{Recalls}
use simply_kaspa_indexer.Processing.Saved.{History, IsRestart, run-IsRestart}
use simply_kaspa_indexer.VirtualChain.Responses
use simply_kaspa_indexer.VirtualChain.Responses.{
  Action, saved_after, events_of, process_virtual_chain,
}
use simply_kaspa_indexer.VirtualChain.Responses.Saved as OfChain
use simply_kaspa_indexer.VirtualChain.Responses.Saved.{
  InOrder, InOrder-saved_after, process_virtual_chain-InOrder,
}
use simply_kaspa_indexer.Start.{
  tasks, initial_block, RpcHeader, World, BlockDagInfo, Started, choose_block_checkpoint,
  choose_vcp_checkpoint, fetch_checkpoint_block, start_processing,
}

-- A checkpoint that one of the two processors has written.
pub data Write : Type 0 where
  of_blocks of_chain : CheckpointBlock → Write

-- The checkpoints of each among the writes, newest first.
abbrev pub block_checkpoints : List Write → List CheckpointBlock
block_checkpoints [] = []
block_checkpoints (of_blocks c ∷ ws) = c ∷ block_checkpoints ws
block_checkpoints (of_chain c ∷ ws) = block_checkpoints ws

abbrev pub vcp_checkpoints : List Write → List CheckpointBlock
vcp_checkpoints [] = []
vcp_checkpoints (of_blocks c ∷ ws) = vcp_checkpoints ws
vcp_checkpoints (of_chain c ∷ ws) = c ∷ vcp_checkpoints ws

-- The table behind the writes, newest first; `encode` is the `hex::encode` of a hash.
abbrev pub vars_after : (Bytes → Bytes) → List Write → Vars → Vars
vars_after encode [] vars = vars
vars_after encode (of_blocks c ∷ ws) vars =
    save_block_checkpoint (encode c.hash) (vars_after encode ws vars)
vars_after encode (of_chain c ∷ ws) vars =
    save_vcp_checkpoint (encode c.hash) (vars_after encode ws vars)

head-injective : {c d : CheckpointBlock} {cs ds : List CheckpointBlock} → c ∷ cs ≡ d ∷ ds → c ≡ d
head-injective e = cc

keys_differ : bytes_eq var_key_block_checkpoint var_key_vcp_checkpoint ≡ false
unfolding bytes_eq Bytes-discrete
keys_differ = refl

keys_differ_back : bytes_eq var_key_vcp_checkpoint var_key_block_checkpoint ≡ false
unfolding bytes_eq Bytes-discrete
keys_differ_back = refl

-- The newest checkpoint is the one that is loaded, whatever the other processor has written since.
module _ (encode : Bytes → Bytes) (vars : Vars) where
  load_block_checkpoint_newest :
      (ws : List Write) {c : CheckpointBlock} {cs : List CheckpointBlock}
      → block_checkpoints ws ≡ c ∷ cs
      → load_block_checkpoint true (vars_after encode ws vars) ≡ some (encode c.hash)
  unfolding load_block_checkpoint save_block_checkpoint save_vcp_checkpoint
  load_block_checkpoint_newest [] e = cc
  load_block_checkpoint_newest (of_blocks d ∷ ws) e =
      select-upsert_var var_key_block_checkpoint (encode d.hash) (vars_after encode ws vars)
      ∙ ap (λ x. some (encode x.hash)) (head-injective e)
  load_block_checkpoint_newest (of_chain d ∷ ws) e =
      select-upsert_var_other var_key_block_checkpoint var_key_vcp_checkpoint (encode d.hash)
        (vars_after encode ws vars) keys_differ
      ∙ load_block_checkpoint_newest ws e

  load_vcp_checkpoint_newest :
      (ws : List Write) {c : CheckpointBlock} {cs : List CheckpointBlock}
      → vcp_checkpoints ws ≡ c ∷ cs
      → load_vcp_checkpoint true (vars_after encode ws vars) ≡ some (encode c.hash)
  unfolding load_vcp_checkpoint save_block_checkpoint save_vcp_checkpoint
  load_vcp_checkpoint_newest [] e = cc
  load_vcp_checkpoint_newest (of_chain d ∷ ws) e =
      select-upsert_var var_key_vcp_checkpoint (encode d.hash) (vars_after encode ws vars)
      ∙ ap (λ x. some (encode x.hash)) (head-injective e)
  load_vcp_checkpoint_newest (of_blocks d ∷ ws) e =
      select-upsert_var_other var_key_vcp_checkpoint var_key_block_checkpoint (encode d.hash)
        (vars_after encode ws vars) keys_differ_back
      ∙ load_vcp_checkpoint_newest ws e

-- What a start without `--ignore-checkpoint` begins with, where the database holds both checkpoints and
-- the node knows their blocks.
start_processing_saved :
    (args : CliArgs) (w : World) (info : BlockDagInfo) {saved_block saved_vcp block vcp : Bytes}
    {b v : RpcHeader}
    → args.ignore_checkpoint ≡ none
    → load_block_checkpoint w.answers.0 w.vars ≡ some saved_block
    → load_vcp_checkpoint w.answers.1 w.vars ≡ some saved_vcp
    → w.from_str saved_block ≡ some block
    → w.from_str saved_vcp ≡ some vcp
    → w.get_block block ≡ some b
    → w.get_block vcp ≡ some v
    → (st : Started) × (start_processing args w info ≡ some st)
      × (st.block_checkpoint ≡ block)
      × (st.vcp_checkpoint ≡ vcp)
unfolding start_processing choose_block_checkpoint choose_vcp_checkpoint fetch_checkpoint_block
start_processing_saved args w info {block = block} {vcp = vcp} {b = b} {v = v} kept lb lv fb fv gb
      gv =
    (
      record {
        block_checkpoint = block;
        vcp_checkpoint = vcp;
        block_checkpoint_block = initial_block b;
        vcp_checkpoint_block = initial_block v;
        running = tasks args;
      },
      rw (kept, lb, lv, fb, fv, gb, gv) refl,
      refl,
      refl,
    )

-- A run of the program up to any time: the block and transaction processors, the checkpoint processor,
-- the virtual chain processor with what it has done so far, of all that it would do, and what the two of these
-- that write checkpoints have written, in the order of the table.
pub record Run : Type 0 where
  pub history : History
  pub checkpoint_setup : Checkpoint.Setup
  pub checkpoint_rounds : List Checkpoint.Round
  pub checkpoint_start : ℕ
  pub checkpoint_state : Checkpoint.State
  pub taken :
      All
        (λ (r : Checkpoint.Round). Any (λ e. e ≡ reported r.message) history.events)
        checkpoint_rounds
  pub checkpoint_run :
      Checkpoint.run checkpoint_setup checkpoint_rounds (Checkpoint.init checkpoint_start)
      ≡ some checkpoint_state
  pub chain_setup : Responses.Setup
  pub chain_recalls : Recalls chain_setup.accepting.contains_key
  pub chain_rounds : List Responses.Round
  pub chain_done : List Action
  pub chain_later : List Action
  pub chain_run :
      (process_virtual_chain chain_setup chain_rounds Responses.init).0 ≡ chain_done ++ chain_later
  pub writes : List Write
  pub block_writes : block_checkpoints writes ≡ checkpoint_state.saved
  pub vcp_writes : vcp_checkpoints writes ≡ saved_after chain_done []

-- What a run has made of a checkpoint of the blocks, and of one of the virtual chain.
abbrev pub IsBlockRestart : Run → CheckpointBlock → Type 0
IsBlockRestart run = IsRestart run.history run.checkpoint_setup

abbrev pub IsVcpRestart : Run → CheckpointBlock → Type 0
IsVcpRestart run =
    OfChain.IsRestart run.chain_setup (λ r. Any (λ q. r ≡ q) run.chain_rounds)
      (events_of run.chain_done)

-- `from_str` reads the hash that `encode` has written.
abbrev pub Reads : (Bytes → Option Bytes) → (Bytes → Bytes) → CheckpointBlock → Type 0
Reads from_str encode c = from_str (encode c.hash) ≡ some c.hash

-- Stopped at any time behind which both processors had written a checkpoint, and started again without
-- `--ignore-checkpoint`, where the database answers, a hash is read back as it was written and the node
-- knows both blocks: the program starts without a panic. It begins to fetch blocks at one that arrived
-- in the earlier run and whose rows, with those of its parents, were all inserted, and with those of its
-- transactions unless transaction processing was disabled. It follows the virtual chain from the last
-- chain block of a response whose accepted transactions were all inserted, unless their acceptance was
-- disabled, but for transfers within a group.
pub start_processing-IsRestart :
    (run : Run) (encode : Bytes → Bytes) (vars : Vars) (args : CliArgs) (w : World)
    (info : BlockDagInfo) {c d : CheckpointBlock} {cs ds : List CheckpointBlock} {b v : RpcHeader}
    → run.checkpoint_state.saved ≡ c ∷ cs
    → saved_after run.chain_done [] ≡ d ∷ ds
    → Reads w.from_str encode c
    → Reads w.from_str encode d
    → w.vars ≡ vars_after encode run.writes vars
    → w.answers ≡ (true, true)
    → args.ignore_checkpoint ≡ none
    → w.get_block c.hash ≡ some b
    → w.get_block d.hash ≡ some v
    → (st : Started) × (start_processing args w info ≡ some st)
      × ((st.block_checkpoint ≡ c.hash) × IsBlockRestart run c)
      × ((st.vcp_checkpoint ≡ d.hash) × IsVcpRestart run d)
start_processing-IsRestart run encode vars args w info sb sv rb rv table answer kept gb gv =
    let (st, started, is_block, is_vcp) =
      start_processing_saved args w info kept
        (rw (answer, table)
          (load_block_checkpoint_newest encode vars run.writes (run.block_writes ∙ sb)))
        (rw (answer, table)
          (load_vcp_checkpoint_newest encode vars run.writes (run.vcp_writes ∙ sv)))
        rb rv gb gv in
    let blocks = subst (All (IsBlockRestart run)) sb (
      run-IsRestart run.history run.checkpoint_setup run.checkpoint_rounds run.checkpoint_start
        run.taken run.checkpoint_run) in
    let In : Responses.Round → Type 0 = λ r. Any (λ q. r ≡ q) run.chain_rounds in
    let in_order =
      subst (InOrder run.chain_setup In []) run.chain_run
        (process_virtual_chain-InOrder run.chain_setup run.chain_rounds run.chain_recalls) in
    let chain =
      subst (All (IsVcpRestart run)) sv
        (InOrder-saved_after run.chain_setup In [] run.chain_done run.chain_later [] in_order tt) in
    (st, started, (is_block, blocks.0), (is_vcp, chain.0))
