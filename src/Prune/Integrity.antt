-- ===== src/Prune/Integrity.antt =====
-- A successful run leaves no row of parents behind for a block that it deletes.
use simply_kaspa_indexer.Prelude.{
  ℕ, ◌-◌, ◌*◌, ◌/◌, ◌^◌, ◌≤◌, ◌<◌, ◌≡◌, refl, Bool, true, false, some, none, List, [], ◌∷◌, ℤ, pos,
  negsuc, All, All-imp, arith, as_i64-pos, subst, sym, ap, ◌∙◌, inl, inr, Bool-cases, min, Bytes,
  Option,
}
use simply_kaspa_indexer.Models.{Block, BlockParent}
use simply_kaspa_indexer.Database.Delete.{Tables, retain, joins_old_block, sql_lt}
use simply_kaspa_indexer.Prune.{Setup, DbPruner, is_some_true, min_with, prune}
use simply_kaspa_indexer.Prune.Parts.{Holds, Holds-off, kept}
use simply_kaspa_indexer.Prune.Steps.{Fits, Room, cut, expected_block_parent, expected_blocks}
use simply_kaspa_indexer.Prune.Complete.{prune-Ended}

retain-All : {R : Type 0} (p : R → Bool) (rows : List R) → All (λ r. p r ≡ true) (retain p rows)
unfolding retain
retain-All p [] = tt
retain-All p (r ∷ rows) = elim (Bool-cases (p r)) [
  | inl e ↦ rw e (e, retain-All p rows)
  | inr e ↦ rw e (retain-All p rows)
]

sql_lt_mono : (x : Option ℤ) (m n : ℕ) → m ≤ n → sql_lt x (pos n) ≡ false → sql_lt x (pos m) ≡ false
sql_lt_mono none m n le h = refl
sql_lt_mono (some (pos k)) m n le h = ground arith
sql_lt_mono (some (negsuc k)) m n le h = ground arith

-- What joins no block below a cutoff joins none below an earlier one.
joins_old_block_mono :
    (bs : List Block) (hash : Option Bytes) (m n : ℕ)
    → m ≤ n
    → joins_old_block bs (pos n) hash ≡ false
    → joins_old_block bs (pos m) hash ≡ false
unfolding joins_old_block
joins_old_block_mono [] hash m n le h = refl
joins_old_block_mono (b ∷ bs) hash m n le h =
    ground (arith, sql_lt_mono b.blue_score m n le, joins_old_block_mono bs hash m n le)

mul_mono : (a b n : ℕ) → a ≤ b → a * n ≤ b * n
mul_mono a b n h = grind arith

-- The row's block is among those that the cutoff for blocks lets expire.
abbrev pub IsDangling : Setup → ℕ → (ℕ → ℤ) → ℕ → Tables → BlockParent → Type 0
IsDangling setup score ms b t row =
    joins_old_block t.blocks (cut setup score ms b) (some row.block_hash) ≡ true

module _ (setup : Setup) (score : ℕ) (ms : ℕ → ℤ) (small : score < 2 ^ 63) where
  -- The blue score a duration before the checkpoint's, as a natural number.
  abbrev before : ℕ → ℕ
  before d = score - d / 1000000000 * setup.net_bps

  cut-pos : (d : ℕ) → cut setup score ms d ≡ pos (before d)
  cut-pos d = as_i64-pos (before d) (omega arith)

  before_antitone : (d e : ℕ) → d ≤ e → before e ≤ before d
  before_antitone d e h =
      let scaled = mul_mono (d / 1000000000) (e / 1000000000) setup.net_bps (omega arith) in
      omega arith

  expected_no-IsDangling :
      (t : Tables) (p b : ℕ)
      → setup.config.retention_blocks ≡ some b
      → All
          (λ row. ¬ IsDangling setup score ms b t row)
          (expected_block_parent setup score ms (some p) t)
  expected_no-IsDangling t p b e =
      All-imp
        (λ row kept_row dangling.
          let same : cut setup score ms (min_with p setup.config.retention_blocks)
              ≡ pos (before (min p b)) =
            ap (λ o. cut setup score ms (min_with p o)) e ∙ cut-pos (min p b) in
          let fresh : joins_old_block t.blocks (pos (before (min p b))) (some row.block_hash)
              ≡ false =
            subst (λ c. joins_old_block t.blocks c (some row.block_hash) ≡ false) same
              (ground arith) in
          let still : joins_old_block t.blocks (pos (before b)) (some row.block_hash) ≡ false =
            joins_old_block_mono t.blocks (some row.block_hash) (before b) (before (min p b))
              (before_antitone (min p b) b (omega arith)) fresh in
          let gone : joins_old_block t.blocks (pos (before b)) (some row.block_hash) ≡ true =
            subst (λ c. joins_old_block t.blocks c (some row.block_hash) ≡ true) (cut-pos b)
              dangling in
          cc)
        (expected_block_parent setup score ms (some p) t) (retain-All _ t.block_parent)

-- Where both retentions are set and the checkpoint's blue score is below 2^63, a run that starts as
-- above and marks itself as successful leaves no row of block_parent whose block has a blue score
-- below the cutoff for blocks, that is, whose block the run has deleted.
pub prune_no-IsDangling :
    (setup : Setup) (score : ℕ) (ms : ℕ → ℤ) (longest : ℕ) (db_pruner : DbPruner) (t : Tables)
    (p b : ℕ)
    → score < 2 ^ 63
    → Fits setup ms longest
    → Room setup t
    → setup.checkpoint_blue_score ≡ some score
    → is_some_true db_pruner.running ≡ false
    → setup.config.retention_block_parent ≡ some p
    → setup.config.retention_blocks ≡ some b
    → Holds
        (λ _. ⊥)
        (λ s.
          s.db_pruner.running ≡ some false
          → s.db_pruner.completed_successfully ≡ some true
          → (s.tables.blocks ≡ kept (λ x. sql_lt x.blue_score (cut setup score ms b)) t.blocks)
            × All (λ row. ¬ IsDangling setup score ms b t row) s.tables.block_parent)
        (prune setup db_pruner t)
prune_no-IsDangling setup score ms longest db_pruner t p b small fits room at_score idle has_p
      has_b =
    Holds-off (λ _. ⊥) _ (prune setup db_pruner t)
      (λ s ended ends success. elim ended [
        | inl (runs, _, _) ↦ cc
        | inr (_, _, left) ↦
            let same = left success in
            (
              ap (λ x. x.blocks) same ∙ ap (λ o. expected_blocks setup score ms o t) has_b,
              subst (All (λ row. ¬ IsDangling setup score ms b t row))
                  (sym (
                    ap (λ x. x.block_parent) same
                    ∙ ap (λ o. expected_block_parent setup score ms o t) has_p))
                  (expected_no-IsDangling setup score ms small t p b has_b),
            )
      ])
      (prune-Ended setup score ms longest db_pruner t fits room at_score idle)
