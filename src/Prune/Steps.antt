-- ===== src/Prune/Steps.antt =====
-- What each step of a run leaves.
use simply_kaspa_indexer.Prelude.{
  ltb_ℤ, ◌&&◌, not, if◌then◌else◌, Bool-cases, inl, inr, pos, inr, inl, Bool-cases, ℕ, ◌+◌, ◌-◌,
  ◌*◌, ◌/◌, ◌≤◌, ◌<◌, ◌≡◌, refl, Bool, not, Option, none, some, List, ℤ, as_i64, mul_u64, IfSome,
  length, arith, u64_limit,
}
use simply_kaspa_indexer.Models.{
  AddressTransaction, ScriptTransaction, TransactionAcceptance, Block, Transaction, BlockParent,
}
use simply_kaspa_indexer.Database.Delete
use simply_kaspa_indexer.Database.Client.{
  prune_block_parent, prune_transactions_acceptances_using_blocks,
  prune_transactions_acceptances_using_transactions, prune_blocks, prune_transactions,
  prune_addresses_transactions, prune_scripts_transactions, Prune, retried,
}
use simply_kaspa_indexer.Database.Client.Pruned.{PrunesAtLast, retried-prunes}
use simply_kaspa_indexer.Database.Delete.{
  joins_old_transaction, sql_lt, prune_with, Tables, joins_old_block, DeleteWhere,
}
use simply_kaspa_indexer.Database.Delete.Loop.{IsDelete}
use simply_kaspa_indexer.Prune.{
  addresses_step, CliDisable, acceptances_step, is_excluded, CliField, is_disabled, blocks_step,
  transactions_step, both_cutoffs, StepName, State, Flow, try_with, Setup, min_with,
  blue_score_before, block_parent_step,
}
use simply_kaspa_indexer.Prune.Parts.{
  Holds-imp, Leaves-along, Holds, Runs, Stopped, Leaves, kept, count_le_length, prune_step-Leaves,
  return_on_shutdown-Holds,
}

-- What a run needs so that no arithmetic overflows and no loop is cut off: a bound on the
-- durations, the times before the checkpoint's, and fuel for each table.
pub record Fits (setup : Setup) (ms : ℕ → ℤ) (longest : ℕ) : Type 1 where
  pub sound : (i : ℕ) → IsDelete (setup.server.delete_where i)
  pub positive : 0 < setup.cli_args.pruning.prune_batch_size
  pub behind : (d : ℕ) → d ≤ longest → d / 1000000000 * setup.net_bps < u64_limit
  pub millis : (d : ℕ) → d ≤ longest → setup.millis_before d ≡ some (ms d)
  pub block_parent : IfSome (λ d. d ≤ longest) setup.config.retention_block_parent
  pub blocks : IfSome (λ d. d ≤ longest) setup.config.retention_blocks
  pub transactions : IfSome (λ d. d ≤ longest) setup.config.retention_transactions
  pub acceptances : IfSome (λ d. d ≤ longest) setup.config.retention_transactions_acceptances
  pub addresses : IfSome (λ d. d ≤ longest) setup.config.retention_addresses_transactions

abbrev pub Enough : Setup → {R : Type 0} → List R → Type 0
Enough setup rows = (length rows < setup.fuel) × (length rows < u64_limit)

pub record Room (setup : Setup) (t : Tables) : Type 0 where
  pub blocks : Enough setup t.blocks
  pub block_parent : Enough setup t.block_parent
  pub transactions : Enough setup t.transactions
  pub acceptances : Enough setup t.transactions_acceptances
  pub addresses : Enough setup t.addresses_transactions
  pub scripts : Enough setup t.scripts_transactions

module _ (setup : Setup) (score : ℕ) (ms : ℕ → ℤ) where
  abbrev limit : ℕ
  limit = setup.cli_args.pruning.prune_batch_size

  -- The blue score that lies a duration before the checkpoint's.
  abbrev pub cut : ℕ → ℤ
  cut d = as_i64 (score - d / 1000000000 * setup.net_bps)

  abbrev pub expected_block_parent : Option ℕ → Tables → List BlockParent
  expected_block_parent none t = t.block_parent
  expected_block_parent (some d) t =
      kept
        (λ bp.
          joins_old_block t.blocks (cut (min_with d setup.config.retention_blocks))
            (some bp.block_hash))
        t.block_parent

  abbrev pub expected_blocks : Option ℕ → Tables → List Block
  expected_blocks none t = t.blocks
  expected_blocks (some d) t = kept (λ b. sql_lt b.blue_score (cut d)) t.blocks

  abbrev pub expected_transactions : Option ℕ → Tables → List Transaction
  expected_transactions none t = t.transactions
  expected_transactions (some d) t = kept (λ tx. sql_lt tx.block_time (ms d)) t.transactions

  abbrev pub by_blocks : ℕ → Tables → TransactionAcceptance → Bool
  by_blocks d t ta =
      joins_old_block t.blocks (cut (min_with d setup.config.retention_blocks)) ta.block_hash

  abbrev pub by_transactions : ℕ → Tables → TransactionAcceptance → Bool
  by_transactions d t ta =
      joins_old_transaction t.transactions (ms (min_with d setup.config.retention_transactions))
        ta.transaction_id

  -- Whether the acceptances can be joined with the transactions.
  abbrev pub transactions_known : Bool
  transactions_known =
      not (is_disabled setup.cli_args CliDisable.transactions_table)
      && not (is_disabled setup.cli_args CliDisable.transaction_processing)
      && not (is_disabled setup.cli_args CliDisable.transaction_acceptance)

  abbrev pub expected_acceptances : Option ℕ → Tables → List TransactionAcceptance
  expected_acceptances none t = t.transactions_acceptances
  expected_acceptances (some d) t =
      if not (is_disabled setup.cli_args CliDisable.blocks_table)
      then kept (by_blocks d t) t.transactions_acceptances
      else (if transactions_known
          then kept (by_transactions d t) t.transactions_acceptances
          else t.transactions_acceptances)

  abbrev put_acceptances : State → List TransactionAcceptance → Tables
  put_acceptances s rows = record s.tables { transactions_acceptances = rows }

  abbrev pub Both : Type 0
  Both = List AddressTransaction × List ScriptTransaction

  abbrev pub put_both : Tables → Both → Tables
  put_both t p = record t { addresses_transactions = p.0; scripts_transactions = p.1 }

  abbrev pub expected_both : Option ℕ → Tables → Both
  expected_both none t = (t.addresses_transactions, t.scripts_transactions)
  expected_both (some d) t =
      if not (is_excluded setup.cli_args CliField.tx_out_script_public_key_address)
      then (kept (λ a. ltb_ℤ a.block_time (ms d)) t.addresses_transactions, t.scripts_transactions)
      else (t.addresses_transactions, kept (λ a. ltb_ℤ a.block_time (ms d)) t.scripts_transactions)

  module _ (longest : ℕ) (fits : Fits setup ms longest) where
    blue_score_before-cut :
        (d : ℕ) → d ≤ longest → blue_score_before setup.net_bps score d ≡ some (cut d)
    unfolding blue_score_before mul_u64
    blue_score_before-cut d h = let ok = fits.behind d h in ground arith

    prunes :
        {R : Type 0} (f : Prune) (put : List R → Tables) (expired : R → Bool) (rows : List R)
        → ((d : DeleteWhere) (rows' : List R)
            → f d (put rows') ≡ prune_with d setup.fuel put expired limit rows')
        → Enough setup rows
        → PrunesAtLast put expired rows (retried setup.server f (put rows))
    prunes f put expired rows same enough =
        let bound = count_le_length expired rows in
        retried-prunes put expired rows setup.server f setup.fuel limit same fits.sound
          fits.positive (omega arith) (omega arith)

    abbrev pub Short : Option ℕ → Type 0
    Short d = IfSome (λ d. d ≤ longest) d

    try_millis :
        (P : State → Type 0) (d : ℕ) (f : ℤ → Flow)
        → d ≤ longest
        → Holds P (Stopped setup) (f (ms d))
        → Holds P (Stopped setup) (try_with (setup.millis_before d) f)
    try_millis P d f short h = rw (fits.millis d short) h

    try_both :
        (P : State → Type 0) (d : ℕ) (f : ℤ → ℤ → Flow)
        → d ≤ longest
        → Holds P (Stopped setup) (f (cut d) (ms d))
        → Holds P (Stopped setup) (both_cutoffs setup score d f)
    try_both P d f short h = rw (blue_score_before-cut d short) (try_millis P d (f (cut d)) short h)

    min_with_short : (d : ℕ) (other : Option ℕ) → d ≤ longest → min_with d other ≤ longest
    min_with_short d none h = omega arith
    min_with_short d (some o) h = omega arith

    pub block_parent_step-Leaves :
        (d : Option ℕ) (s : State)
        → Short d
        → Runs s
        → Enough setup s.tables.block_parent
        → Holds
            (Leaves s
              (λ rows. record s.tables { block_parent = rows })
              (expected_block_parent d s.tables))
            (Stopped setup)
            (block_parent_step setup score d s)
    unfolding block_parent_step prune_block_parent Delete.prune_block_parent
    block_parent_step-Leaves none s short runs room =
        (runs, s.tables.block_parent, refl, λ e. (e, refl))
    block_parent_step-Leaves (some d) s short runs room =
        let put : List BlockParent → Tables = λ rows. record s.tables { block_parent = rows } in
        let before = min_with d setup.config.retention_blocks in
        let expired : BlockParent → Bool =
          λ bp. joins_old_block s.tables.blocks (cut before) (some bp.block_hash) in
        try_both _ before _ (min_with_short d _ short) (
          return_on_shutdown-Holds setup score _ s _ runs (
            prune_step-Leaves (Stopped setup) put expired s.tables.block_parent
              StepName.block_parent
              (λ blue_score _. prune_block_parent setup.server setup.fuel blue_score limit)
              (cut before) (ms before) (record s { asked = s.asked + 1 }) runs
              (prunes (λ d'. Delete.prune_block_parent d' setup.fuel (cut before) limit) put expired
                s.tables.block_parent (λ d rows'. refl) room)))

    pub blocks_step-Leaves :
        (d : Option ℕ) (s : State)
        → Short d
        → Runs s
        → Enough setup s.tables.blocks
        → Holds
            (Leaves s (λ rows. record s.tables { blocks = rows }) (expected_blocks d s.tables))
            (Stopped setup)
            (blocks_step setup score d s)
    unfolding blocks_step prune_blocks Delete.prune_blocks
    blocks_step-Leaves none s short runs room = (runs, s.tables.blocks, refl, λ e. (e, refl))
    blocks_step-Leaves (some d) s short runs room =
        let put : List Block → Tables = λ rows. record s.tables { blocks = rows } in
        let expired : Block → Bool = λ b. sql_lt b.blue_score (cut d) in
        try_both _ d _ short (
          return_on_shutdown-Holds setup score _ s _ runs (
            prune_step-Leaves (Stopped setup) put expired s.tables.blocks StepName.blocks
              (λ blue_score _. prune_blocks setup.server setup.fuel blue_score limit) (cut d) (ms d)
              (record s { asked = s.asked + 1 }) runs
              (prunes (λ d'. Delete.prune_blocks d' setup.fuel (cut d) limit) put expired
                s.tables.blocks (λ d rows'. refl) room)))

    pub transactions_step-Leaves :
        (d : Option ℕ) (s : State)
        → Short d
        → Runs s
        → Enough setup s.tables.transactions
        → Holds
            (Leaves s
              (λ rows. record s.tables { transactions = rows })
              (expected_transactions d s.tables))
            (Stopped setup)
            (transactions_step setup score d s)
    unfolding transactions_step prune_transactions Delete.prune_transactions
    transactions_step-Leaves none s short runs room =
        (runs, s.tables.transactions, refl, λ e. (e, refl))
    transactions_step-Leaves (some d) s short runs room =
        let put : List Transaction → Tables = λ rows. record s.tables { transactions = rows } in
        let expired : Transaction → Bool = λ tx. sql_lt tx.block_time (ms d) in
        try_millis _ d _ short (
          return_on_shutdown-Holds setup score _ s _ runs (
            prune_step-Leaves (Stopped setup) put expired s.tables.transactions
              StepName.transactions
              (λ _ time_ms. prune_transactions setup.server setup.fuel time_ms limit) (pos 0) (ms d)
              (record s { asked = s.asked + 1 }) runs
              (prunes (λ d'. Delete.prune_transactions d' setup.fuel (ms d) limit) put expired
                s.tables.transactions (λ d rows'. refl) room)))

    pub acceptances_step-Leaves :
        (d : Option ℕ) (s : State)
        → Short d
        → Runs s
        → Enough setup s.tables.transactions_acceptances
        → Holds
            (Leaves s (put_acceptances s) (expected_acceptances d s.tables))
            (Stopped setup)
            (acceptances_step setup score d s)
    unfolding acceptances_step prune_transactions_acceptances_using_blocks
        Delete.prune_transactions_acceptances_using_blocks
        prune_transactions_acceptances_using_transactions
        Delete.prune_transactions_acceptances_using_transactions
    acceptances_step-Leaves none s short runs room =
        (runs, s.tables.transactions_acceptances, refl, λ e. (e, refl))
    acceptances_step-Leaves (some d) s short runs room =
        let s₁ : State = record s { asked = s.asked + 1 } in
        return_on_shutdown-Holds setup score _ s _ runs
          (elim (Bool-cases (not (is_disabled setup.cli_args CliDisable.blocks_table))) [
            | inl e ↦
                let before = min_with d setup.config.retention_blocks in
                rw e (
                  try_both _ before _ (min_with_short d _ short) (
                    prune_step-Leaves (Stopped setup) (put_acceptances s) (by_blocks d s.tables)
                      s.tables.transactions_acceptances StepName.transactions_acceptances_b
                      (λ blue_score _.
                        prune_transactions_acceptances_using_blocks setup.server setup.fuel
                          blue_score limit)
                      (cut before) (ms before) s₁ runs
                      (prunes
                        (λ d'.
                          Delete.prune_transactions_acceptances_using_blocks d' setup.fuel
                            (cut before) limit)
                        (put_acceptances s) (by_blocks d s.tables) s.tables.transactions_acceptances
                        (λ d rows'. refl) room)))
            | inr e ↦ elim (Bool-cases transactions_known) [
              | inl e₁ ↦
                  let before = min_with d setup.config.retention_transactions in
                  rw (e, e₁)
                    (try_millis _ before _ (min_with_short d _ short) (
                      prune_step-Leaves (Stopped setup) (put_acceptances s)
                        (by_transactions d s.tables) s.tables.transactions_acceptances
                        StepName.transactions_acceptances_t
                        (λ _ time_ms.
                          prune_transactions_acceptances_using_transactions setup.server setup.fuel
                            time_ms limit)
                        (pos 0) (ms before) s₁ runs
                        (prunes
                          (λ d'.
                            Delete.prune_transactions_acceptances_using_transactions d' setup.fuel
                              (ms before) limit)
                          (put_acceptances s) (by_transactions d s.tables)
                          s.tables.transactions_acceptances (λ d rows'. refl) room)))
              | inr e₁ ↦ rw (e, e₁) (runs, s.tables.transactions_acceptances, refl, λ z. (z, refl))
            ]
          ])

    pub addresses_step-Leaves :
        (d : Option ℕ) (s : State)
        → Short d
        → Runs s
        → Enough setup s.tables.addresses_transactions
        → Enough setup s.tables.scripts_transactions
        → Holds
            (Leaves s (put_both s.tables) (expected_both d s.tables))
            (Stopped setup)
            (addresses_step setup score d s)
    unfolding addresses_step prune_addresses_transactions Delete.prune_addresses_transactions
        prune_scripts_transactions Delete.prune_scripts_transactions
    addresses_step-Leaves none s short runs room room₁ = (
      runs,
      (s.tables.addresses_transactions, s.tables.scripts_transactions),
      refl,
      λ e. (e, refl),
    )
    addresses_step-Leaves (some d) s short runs room room₁ =
        let s₁ : State = record s { asked = s.asked + 1 } in
        let addresses : List AddressTransaction = s.tables.addresses_transactions in
        let scripts : List ScriptTransaction = s.tables.scripts_transactions in
        try_millis _ d _ short (
          return_on_shutdown-Holds setup score _ s _ runs
            (elim (Bool-cases
              (not (is_excluded setup.cli_args CliField.tx_out_script_public_key_address))) [
                | inl e ↦
                    let put : List AddressTransaction → Tables =
                      λ rows. put_both s.tables (rows, scripts) in
                    let expired : AddressTransaction → Bool = λ a. ltb_ℤ a.block_time (ms d) in
                    rw e (
                      Holds-imp (Stopped setup) _
                        (Leaves-along s (λ rows. (rows, scripts)) (put_both s.tables)
                          (kept expired addresses))
                        (prune_step-Leaves (Stopped setup) put expired addresses
                          StepName.addresses_transactions
                          (λ _ time_ms.
                            prune_addresses_transactions setup.server setup.fuel time_ms limit)
                          (pos 0) (ms d) s₁ runs
                          (prunes
                            (λ d'. Delete.prune_addresses_transactions d' setup.fuel (ms d) limit)
                            put expired addresses (λ d rows'. refl) room)))
                | inr e ↦
                    let put : List ScriptTransaction → Tables =
                      λ rows. put_both s.tables (addresses, rows) in
                    let expired : ScriptTransaction → Bool = λ a. ltb_ℤ a.block_time (ms d) in
                    rw e (
                      Holds-imp (Stopped setup) _
                        (Leaves-along s (λ rows. (addresses, rows)) (put_both s.tables)
                          (kept expired scripts))
                        (prune_step-Leaves (Stopped setup) put expired scripts
                          StepName.scripts_transactions
                          (λ _ time_ms.
                            prune_scripts_transactions setup.server setup.fuel time_ms limit)
                          (pos 0) (ms d) s₁ runs
                          (prunes
                            (λ d'. Delete.prune_scripts_transactions d' setup.fuel (ms d) limit) put
                            expired scripts (λ d rows'. refl) room₁)))
              ]))
