-- ===== src/Health/Down.antt =====
-- When the report answers that the service is unavailable.
use simply_kaspa_indexer.Prelude.{
  subst, some-injective, >>=-eq_some, ℕ, ◌≤◌, ◌≡◌, ◌⊎◌, ◌↔◌, refl, Bool, true, false, Option, none,
  some, List, [], ◌∷◌, ◌++◌, Any, arith, if◌then◌else◌,
}
use simply_kaspa_indexer.Processing.{MetricsBlock}
use simply_kaspa_indexer.Metrics.Tables.{DatabaseDetails, TableDetails}
use simply_kaspa_indexer.Metrics.{System, update_metrics, update_process, update_db, Metrics}
use simply_kaspa_indexer.Health.{
  health_response, is_warn, kaspad_status, net_bps_of, up_if, pruner_status, lag_status,
  HealthStatus, up, warn, down, Kaspad, lag_seconds, indexer_details, health_details, is_down,
  some_status, indexer_health, virtual_daa_score, get_health, status_code,
}

-- The component has shown no block, or is ten minutes behind.
abbrev pub Lags : ℕ → Option ℕ → ℕ → Option MetricsBlock → Type 0
Lags net_bps current_daa now none = Unit
Lags net_bps current_daa now (some b) = 600 ≤ lag_seconds net_bps current_daa now b

indexer_details-Lags :
    (net_bps : ℕ) (current_daa : Option ℕ) (now warn_lag_seconds : ℕ) (o : Option MetricsBlock)
    → warn_lag_seconds ≤ 600
    → (is_down (indexer_details net_bps current_daa now warn_lag_seconds 600 o) ≡ true)
      ↔ Lags net_bps current_daa now o
unfolding indexer_details lag_status
indexer_details-Lags net_bps current_daa now warn_lag_seconds none small = ground arith
indexer_details-Lags net_bps current_daa now warn_lag_seconds (some b) small = ground arith

-- The components that the report watches, with the place of each.
abbrev pub watched : Metrics → List (ℕ × Option MetricsBlock)
watched m =
    ((0, m.block_checkpoint.block)
      ∷ (1, m.vcp_checkpoint.block)
      ∷ (2, m.components.block_fetcher.last_block)
      ∷ (3, m.components.block_processor.last_block)
      ∷ [])
    ++ ((if m.components.transaction_processor.enabled
          then (4, m.components.transaction_processor.last_block) ∷ []
          else [])
        ++ ((if m.components.virtual_chain_processor.enabled
              then (5, m.components.virtual_chain_processor.last_block) ∷ []
              else [])
            ++ []))

abbrev pub SomeLags : Metrics → Option ℕ → (ℕ → ℕ) → Type 0
SomeLags m current_daa now =
    Any (λ (k : ℕ × Option MetricsBlock). Lags (net_bps_of m) current_daa (now k.0) k.1) (watched m)

up_if_lem : (b : Bool) → is_down (up_if b) ≡ false
up_if_lem true = refl
up_if_lem false = refl

pruner_status_lem : (m : Metrics) → is_down (pruner_status m) ≡ false
unfolding pruner_status
pruner_status_lem m = ground arith

-- One component more, or one that is never down.
module _ (rest : List HealthStatus) {L R : Type 0} where
  status_counts :
      (s : HealthStatus)
      → ((is_down s ≡ true) ↔ L)
      → ((some_status is_down rest ≡ true) ↔ R)
      → (some_status is_down (s ∷ rest) ≡ true) ↔ (L ⊎ R)
  unfolding some_status
  status_counts s l r = ground arith

module _ (rest : List HealthStatus) {R : Type 0} where
  status_skipped :
      (s : HealthStatus)
      → is_down s ≡ false
      → ((some_status is_down rest ≡ true) ↔ R)
      → (some_status is_down (s ∷ rest) ≡ true) ↔ R
  unfolding some_status
  status_skipped s never r = ground arith

module _ (used : ℕ → ℕ → ℕ) (m : Metrics) (current_daa : Option ℕ) (now : ℕ → ℕ) where
  details :
      (i warn_lag_seconds : ℕ) (o : Option MetricsBlock)
      → warn_lag_seconds ≤ 600
      → (is_down (indexer_details (net_bps_of m) current_daa (now i) warn_lag_seconds 600 o) ≡ true)
        ↔ Lags (net_bps_of m) current_daa (now i) o
  details i warn_lag_seconds o =
      indexer_details-Lags (net_bps_of m) current_daa (now i) warn_lag_seconds o

  abbrev LagsAt : ℕ × Option MetricsBlock → Type 0
  LagsAt k = Lags (net_bps_of m) current_daa (now k.0) k.1

  only_pruner : (some_status is_down (pruner_status m ∷ []) ≡ true) ↔ ⊥
  unfolding some_status
  only_pruner = ground (arith, pruner_status_lem m)

  abbrev optional : Bool → ℕ → Option MetricsBlock → List HealthStatus
  optional enabled i o =
      if enabled then indexer_details (net_bps_of m) current_daa (now i) 60 600 o ∷ [] else []

  optional_counts :
      (enabled : Bool) (i : ℕ) (o : Option MetricsBlock) (rest : List HealthStatus)
      (others : List (ℕ × Option MetricsBlock))
      → ((some_status is_down rest ≡ true) ↔ Any LagsAt others)
      → (some_status is_down (optional enabled i o ++ rest) ≡ true)
        ↔ Any LagsAt ((if enabled then (i, o) ∷ [] else []) ++ others)
  optional_counts true i o rest others r = status_counts rest _ (details i 60 o (omega arith)) r
  optional_counts false i o rest others r = r

  health_details-SomeLags :
      (some_status is_down (health_details used m current_daa now) ≡ true)
      ↔ SomeLags m current_daa now
  unfolding health_details
  health_details-SomeLags = status_skipped _ _ (up_if_lem _) (
      status_skipped _ _ (up_if_lem _) (
        status_skipped _ _ (up_if_lem _) (
          status_counts _ _ (details 0 120 m.block_checkpoint.block (omega arith)) (
            status_counts _ _ (details 1 120 m.vcp_checkpoint.block (omega arith)) (
              status_counts _ _ (details 2 60 m.components.block_fetcher.last_block (omega arith)) (
                status_counts _ _
                  (details 3 60 m.components.block_processor.last_block (omega arith))
                  (optional_counts m.components.transaction_processor.enabled 4
                    m.components.transaction_processor.last_block _ _
                    (optional_counts m.components.virtual_chain_processor.enabled 5
                      m.components.virtual_chain_processor.last_block _ [] only_pruner))))))))

code_lem :
    (bad some_down some_warn : Bool)
    → (status_code
          (if bad then down else if some_down then down else if some_warn then warn else up)
        ≡ 503)
      ↔ ((bad ≡ true) ⊎ (some_down ≡ true))
code_lem true some_down some_warn = ground arith
code_lem false true some_warn = ground arith
code_lem false false true = ground arith
code_lem false false false = ground arith

either_iff : {A B C D : Type 0} → A ↔ (B ⊎ C) → C ↔ D → A ↔ (B ⊎ D)
either_iff f g = ground arith

health_response-SomeLags :
    (used : ℕ → ℕ → ℕ) (m : Metrics) (kaspad : Kaspad) (now : ℕ → ℕ)
    → ((health_response used m kaspad now).1 ≡ 503)
      ↔ ((is_down (kaspad_status kaspad) ≡ true) ⊎ SomeLags m (virtual_daa_score kaspad) now)
unfolding health_response indexer_health
health_response-SomeLags used m kaspad now =
    either_iff
      (code_lem (is_down (kaspad_status kaspad))
        (some_status is_down (health_details used m (virtual_daa_score kaspad) now))
        (some_status is_warn (health_details used m (virtual_daa_score kaspad) now)))
      (health_details-SomeLags used m (virtual_daa_score kaspad) now)

-- A response, where collecting the metrics does not panic, says that the service is unavailable exactly
-- where the node is not reachable or not synced, or one of the watched components has shown no block yet
-- or is ten minutes or more behind: by the node's score where the node answers, by the clock otherwise.
-- Memory, the queues and the pruner never have this effect.
pub get_health-SomeLags :
    (used : ℕ → ℕ → ℕ) (system : System) (db : Option DatabaseDetails)
    (tables : Option (List TableDetails)) (m : Metrics) (kaspad : Kaspad) (now : ℕ → ℕ)
    {response : HealthStatus × ℕ}
    → get_health used system db tables m kaspad now ≡ some response
    → (response.1 ≡ 503)
      ↔ ((is_down (kaspad_status kaspad) ≡ true) ⊎ SomeLags m (virtual_daa_score kaspad) now)
unfolding get_health update_metrics
get_health-SomeLags used system db tables m kaspad now {response} e =
    let (m', updated, e1) = >>=-eq_some (update_metrics system db tables m) _ e in
    let (process, _, e2) = >>=-eq_some (update_process system m.process) _ updated in
    let m'' : Metrics = record m { process = process; database = update_db db tables m.database } in
    let P = λ (r : HealthStatus × ℕ).
      (r.1 ≡ 503)
      ↔ ((is_down (kaspad_status kaspad) ≡ true) ⊎ SomeLags m (virtual_daa_score kaspad) now) in
    subst P (some-injective e1) (
      subst (λ x. P (health_response used x kaspad now)) (some-injective e2)
        (health_response-SomeLags used m'' kaspad now))
