-- ===== src/Prune/Complete.antt =====
-- What a run leaves of the tables.
use simply_kaspa_indexer.Prelude.{
  ◌==◌, inl, inr, ◌⊎◌, ap, false, ◌∙◌, ◌⊎◌, inr, inl, ℕ, ◌≡◌, refl, true, Option, none, some, List,
  [], ℤ, arith,
}
use simply_kaspa_indexer.Models.{TransactionAcceptance, Block, Transaction, BlockParent}
use simply_kaspa_indexer.Database.Delete.{Tables}
use simply_kaspa_indexer.Prune.{
  is_some_true, DbPruner, prune, addresses_step, acceptances_step, finish, blocks_step,
  transactions_step, State, Flow, ◌>>>◌, Setup, block_parent_step,
}
use simply_kaspa_indexer.Prune.Parts.{
  Holds-off, next-Leaves, Holds, >>>-Holds, Leaves, Runs, Stopped,
}
use simply_kaspa_indexer.Prune.Steps.{
  Enough, Fits, Room, put_both, expected_block_parent, expected_blocks, expected_transactions,
  expected_acceptances, expected_both, block_parent_step-Leaves, acceptances_step-Leaves,
  blocks_step-Leaves, transactions_step-Leaves, addresses_step-Leaves,
}

success_zero : (n : ℕ) → some (n == 0) ≡ some true → n ≡ 0
success_zero n h = ground arith

module _ (setup : Setup) (score : ℕ) (ms : ℕ → ℤ) where
  -- Every table without the rows that its own option lets expire, by what the tables held before.
  abbrev pub expected : Tables → Tables
  expected t = record {
    blocks = expected_blocks setup score ms setup.config.retention_blocks t;
    block_parent = expected_block_parent setup score ms setup.config.retention_block_parent t;
    transactions = expected_transactions setup score ms setup.config.retention_transactions t;
    transactions_acceptances =
        expected_acceptances setup score ms setup.config.retention_transactions_acceptances t;
    addresses_transactions =
        (expected_both setup score ms setup.config.retention_addresses_transactions t).0;
    scripts_transactions =
        (expected_both setup score ms setup.config.retention_addresses_transactions t).1;
  }

  -- How a run ends: a signal has stopped it, or it has marked itself as ended and as successful
  -- where no step failed, and then the tables are the expected ones.
  abbrev pub Ended : Tables → State → Type 0
  Ended t s =
      Stopped setup s
      ⊎ ((s.db_pruner.running ≡ some false)
          × (s.db_pruner.completed_successfully ≡ some (s.step_errors == 0))
          × (s.db_pruner.completed_successfully ≡ some true → s.tables ≡ expected t))

  finish-Ended :
      {X : Type 0} (t : Tables) (s : State) (put : X → Tables) (x : X) (m : Flow)
      → put x ≡ expected t
      → Holds (Leaves s put x) (Stopped setup) m
      → Holds (λ _. ⊥) (Ended t) (m >>> finish setup score)
  finish-Ended t s put x m same h =
      >>>-Holds (λ _. ⊥) (Ended t) m (finish setup score)
        (Holds-off (Leaves s put x) (Ended t) m (λ _. inl) h)
        (λ s' leaves.
          let (_, _, e, left) = leaves in
          inr (refl, refl, λ z. e ∙ (ap put (left (success_zero s'.step_errors z)).1 ∙ same)))

  -- The steps do not read what the ones before them have written.
  acceptances_same :
      (d : Option ℕ) (t : Tables) (rows : List BlockParent)
      → expected_acceptances setup score ms d (record t { block_parent = rows })
        ≡ expected_acceptances setup score ms d t
  acceptances_same none t rows = refl
  acceptances_same (some d) t rows = refl

  blocks_same :
      (d : Option ℕ) (t : Tables) (rows : List BlockParent) (rows' : List TransactionAcceptance)
      → expected_blocks setup score ms d
          (record t { block_parent = rows; transactions_acceptances = rows' })
        ≡ expected_blocks setup score ms d t
  blocks_same none t rows rows' = refl
  blocks_same (some d) t rows rows' = refl

  transactions_same :
      (d : Option ℕ) (t : Tables) (rows : List BlockParent) (rows' : List TransactionAcceptance)
      (rows'' : List Block)
      → expected_transactions setup score ms d
          (record t { block_parent = rows; transactions_acceptances = rows'; blocks = rows'' })
        ≡ expected_transactions setup score ms d t
  transactions_same none t rows rows' rows'' = refl
  transactions_same (some d) t rows rows' rows'' = refl

  both_same :
      (d : Option ℕ) (t : Tables) (parents : List BlockParent)
      (acceptances : List TransactionAcceptance) (bs : List Block) (txs : List Transaction)
      → expected_both setup score ms d (record t {
        block_parent = parents;
        transactions_acceptances = acceptances;
        blocks = bs;
        transactions = txs;
      })
        ≡ expected_both setup score ms d t
  both_same none t parents acceptances bs txs = refl
  both_same (some d) t parents acceptances bs txs = refl

  prune_steps-Ended :
      (longest : ℕ) (s : State)
      → Fits setup ms longest
      → Room setup s.tables
      → Runs s
      → Holds
          (λ _. ⊥)
          (Ended s.tables)
          (block_parent_step setup score setup.config.retention_block_parent s
            >>> acceptances_step setup score setup.config.retention_transactions_acceptances
            >>> blocks_step setup score setup.config.retention_blocks
            >>> transactions_step setup score setup.config.retention_transactions
            >>> addresses_step setup score setup.config.retention_addresses_transactions
            >>> finish setup score)
  prune_steps-Ended longest s fits room runs =
      let c = setup.config in
      let t = s.tables in
      let put₁ : List BlockParent → Tables = λ rows. record t { block_parent = rows } in
      let x₁ = expected_block_parent setup score ms c.retention_block_parent t in
      let h₁ =
        block_parent_step-Leaves setup score ms longest fits c.retention_block_parent s
          fits.block_parent runs room.block_parent in
      let h₂ =
        next-Leaves (Stopped setup) s put₁ x₁
          (λ t (rows : List TransactionAcceptance). record t { transactions_acceptances = rows })
          (expected_acceptances setup score ms c.retention_transactions_acceptances)
          (λ t. Enough setup t.transactions_acceptances) _
          (acceptances_step setup score c.retention_transactions_acceptances) h₁
          (λ _. room.acceptances)
          (λ s' runs' room'.
            acceptances_step-Leaves setup score ms longest fits _ s' fits.acceptances runs'
              room') in
      let h₃ =
        next-Leaves (Stopped setup) s _ _ (λ t (rows : List Block). record t { blocks = rows })
          (expected_blocks setup score ms c.retention_blocks) (λ t. Enough setup t.blocks) _
          (blocks_step setup score c.retention_blocks) h₂ (λ _. room.blocks)
          (λ s' runs' room'.
            blocks_step-Leaves setup score ms longest fits _ s' fits.blocks runs' room') in
      let h₄ =
        next-Leaves (Stopped setup) s _ _
          (λ t (rows : List Transaction). record t { transactions = rows })
          (expected_transactions setup score ms c.retention_transactions)
          (λ t. Enough setup t.transactions) _
          (transactions_step setup score c.retention_transactions) h₃ (λ _. room.transactions)
          (λ s' runs' room'.
            transactions_step-Leaves setup score ms longest fits _ s' fits.transactions runs'
              room') in
      let h₅ =
        next-Leaves (Stopped setup) s _ _ (put_both setup score ms)
          (expected_both setup score ms c.retention_addresses_transactions)
          (λ t. Enough setup t.addresses_transactions × Enough setup t.scripts_transactions) _
          (addresses_step setup score c.retention_addresses_transactions) h₄
          (λ _. (room.addresses, room.scripts))
          (λ s' runs' room'.
            addresses_step-Leaves setup score ms longest fits _ s' fits.addresses runs' room'.0
              room'.1) in
      finish-Ended t s _ _ _
        (simp (acceptances_same, blocks_same, transactions_same, both_same) refl) h₅

pub prune-Ended :
    (setup : Setup) (score : ℕ) (ms : ℕ → ℤ) (longest : ℕ) (db_pruner : DbPruner) (t : Tables)
    → Fits setup ms longest
    → Room setup t
    → setup.checkpoint_blue_score ≡ some score
    → is_some_true db_pruner.running ≡ false
    → Holds (λ _. ⊥) (Ended setup score ms t) (prune setup db_pruner t)
unfolding prune
prune-Ended setup score ms longest db_pruner t fits room at_score idle =
    rw (idle, at_score)
      (prune_steps-Ended setup score ms longest
        (record {
          db_pruner = record db_pruner { running = some true; results = [] };
          tables = t;
          step_errors = 0;
          asked = 0;
        })
        fits room refl)
