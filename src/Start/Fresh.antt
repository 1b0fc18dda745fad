-- ===== src/Start/Fresh.antt =====
-- What the program shows of itself before it has fetched a block.
use simply_kaspa_indexer.Prelude.{
  ℕ, ℤ, ◌≡◌, sym, ◌∙◌, ap, Bool, false, none, Option, some, List, [], ◌∷◌, All, inl, inr,
  >>=-eq_some, some-injective,
}
use simply_kaspa_indexer.Cli.{CliArgs}
use simply_kaspa_indexer.Processing.{MetricsBlock, metrics_block}
use simply_kaspa_indexer.Metrics.{Metrics, System, update_metrics, update_process}
use simply_kaspa_indexer.Metrics.Tables.{DatabaseDetails, TableDetails}
use simply_kaspa_indexer.Metrics.Writes.{
  Write, fetched, blocks_inserted, transactions_inserted, chain_followed, block_checkpoint_saved,
  vcp_checkpoint_saved, pruned, requested, apply, apply_all, is_fetched,
}
use simply_kaspa_indexer.Health.{HealthStatus, Kaspad, get_health, virtual_daa_score}
use simply_kaspa_indexer.Health.Down.{SomeLags, get_health-SomeLags}
use simply_kaspa_indexer.Start.{Started, first_metrics}

-- The block that the fetcher shows.
abbrev shown_by_fetcher : Metrics → Option MetricsBlock
shown_by_fetcher m = m.components.block_fetcher.last_block

first_metrics-none :
    (datable : ℤ → Bool) (queue_capacity : ℕ) (args : CliArgs) (st : Started) {m : Metrics}
    → first_metrics datable queue_capacity args st ≡ some m
    → shown_by_fetcher m ≡ none
unfolding first_metrics
first_metrics-none datable queue_capacity args st e =
    let (b, _, e1) = >>=-eq_some (metrics_block datable st.block_checkpoint_block) _ e in
    let (v, _, e2) = >>=-eq_some (metrics_block datable st.vcp_checkpoint_block) _ e1 in
    sym (ap shown_by_fetcher (some-injective e2))

-- Only the fetcher writes what it shows.
apply_keeps :
    (w : Write) (m : Metrics) {m' : Metrics}
    → is_fetched w ≡ false
    → apply w m ≡ some m'
    → shown_by_fetcher m' ≡ shown_by_fetcher m
unfolding apply update_metrics
apply_keeps (fetched blocks transactions b) m other e = cc
apply_keeps (blocks_inserted b) m other e = sym (ap shown_by_fetcher (some-injective e))
apply_keeps (transactions_inserted b) m other e = sym (ap shown_by_fetcher (some-injective e))
apply_keeps (chain_followed tip_distance b) m other e = sym (ap shown_by_fetcher (some-injective e))
apply_keeps (block_checkpoint_saved origin b) m other e =
    sym (ap shown_by_fetcher (some-injective e))
apply_keeps (vcp_checkpoint_saved origin b) m other e = sym (ap shown_by_fetcher (some-injective e))
apply_keeps (pruned db_pruner) m other e = sym (ap shown_by_fetcher (some-injective e))
apply_keeps (requested system details tables) m other e =
    let (process, _, e1) = >>=-eq_some (update_process system m.process) _ e in
    sym (ap shown_by_fetcher (some-injective e1))

apply_all_keeps :
    (ws : List Write) (m : Metrics) {m' : Metrics}
    → All (λ w. is_fetched w ≡ false) ws
    → apply_all ws m ≡ some m'
    → shown_by_fetcher m' ≡ shown_by_fetcher m
unfolding apply_all
apply_all_keeps [] m other e = sym (ap shown_by_fetcher (some-injective e))
apply_all_keeps (w ∷ ws) m other e =
    let (m₁, applied, e1) = >>=-eq_some (apply w m) (apply_all ws) e in
    apply_all_keeps ws m₁ other.1 e1 ∙ apply_keeps w m other.0 applied

none-SomeLags :
    (m : Metrics) (daa : Option ℕ) (now : ℕ → ℕ) → shown_by_fetcher m ≡ none → SomeLags m daa now
none-SomeLags m daa now e = inr (inr (inl (rw e tt)))

-- Until the fetcher has shown a block, the health report says that the service is unavailable: whatever the
-- other tasks and earlier reports have written to the metrics since the program's start, in any order, a
-- report that does not panic has the code 503, however the node and the database answer and whatever the
-- options are.
pub unfetched-get_health :
    (datable : ℤ → Bool) (queue_capacity : ℕ) (args : CliArgs) (st : Started) (ws : List Write)
    (used : ℕ → ℕ → ℕ) (system : System) (db : Option DatabaseDetails)
    (tables : Option (List TableDetails)) (kaspad : Kaspad) (now : ℕ → ℕ) {m m' : Metrics}
    {response : HealthStatus × ℕ}
    → first_metrics datable queue_capacity args st ≡ some m
    → All (λ w. is_fetched w ≡ false) ws
    → apply_all ws m ≡ some m'
    → get_health used system db tables m' kaspad now ≡ some response
    → response.1 ≡ 503
unfetched-get_health datable queue_capacity args st ws used system db tables kaspad now {m} {m'}
      first others written answer =
    let unshown =
      apply_all_keeps ws m others written
      ∙ first_metrics-none datable queue_capacity args st first in
    (get_health-SomeLags used system db tables m' kaspad now answer).1
      (inr (none-SomeLags m' (virtual_daa_score kaspad) now unshown))
