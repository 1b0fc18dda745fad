-- ===== src/Health.antt =====
-- indexer/src/web/endpoint/health.rs: the states in the health report and the code of the response. Names and
-- reasons are texts for a reader, and left out. `used` is the percentage of a queue, a rounded f32.
pub mod Down
mod Tests
use simply_kaspa_indexer.Prelude.{
  ℕ, ◌-◌, ◌/◌, Bool, true, false, not, ◌&&◌, ◌||◌, Option, none, some, List, [], ◌∷◌, ◌++◌, ltb,
  ◌==◌, if◌then◌else◌, ◌>>=◌,
}
use simply_kaspa_indexer.Processing.{MetricsBlock}
use simply_kaspa_indexer.Metrics.Tables.{DatabaseDetails, TableDetails}
use simply_kaspa_indexer.Metrics.{System, update_metrics, Metrics}

pub data HealthStatus : Type 0 where
  up warn down : HealthStatus

unfoldable pub lag_status : ℕ → ℕ → ℕ → HealthStatus
lag_status warn_lag_seconds down_lag_seconds lag =
    if ltb lag warn_lag_seconds then up else if ltb lag down_lag_seconds then warn else down

-- How many seconds the block is behind: by its score where that of the node is known, or by the clock.
unfoldable pub lag_seconds : ℕ → Option ℕ → ℕ → MetricsBlock → ℕ
lag_seconds net_bps none now b = (now - b.timestamp) / 1000
lag_seconds net_bps (some current_daa) now b = (current_daa - b.daa_score) / net_bps

unfoldable pub indexer_details : ℕ → Option ℕ → ℕ → ℕ → ℕ → Option MetricsBlock → HealthStatus
unfolding lag_status lag_seconds
indexer_details net_bps current_daa now warn_lag_seconds down_lag_seconds none = down
indexer_details net_bps current_daa now warn_lag_seconds down_lag_seconds (some b) =
    lag_status warn_lag_seconds down_lag_seconds (lag_seconds net_bps current_daa now b)

abbrev pub up_if : Bool → HealthStatus
up_if b = if b then up else warn

abbrev pub net_bps_of : Metrics → ℕ
net_bps_of m = elim m.settings [ none ↦ 10 | some settings ↦ settings.net_bps ]

unfoldable pub pruner_status : Metrics → HealthStatus
pruner_status m =
    if m.components.db_pruner.enabled
    then elim m.components.db_pruner.completed_successfully [ none ↦ up | some ok ↦ up_if ok ]
    else up

-- `now i` is the clock at the `i`-th component. A rate of 0 would be a division by zero; main.rs sets none.
unfoldable pub health_details : (ℕ → ℕ → ℕ) → Metrics → Option ℕ → (ℕ → ℕ) → List HealthStatus
unfolding indexer_details pruner_status
health_details used m current_daa now =
    let details = λ (i : ℕ). indexer_details (net_bps_of m) current_daa (now i) in
    (up_if (ltb 524288000 m.process.memory_free)
      ∷ up_if (ltb (used m.queues.blocks m.queues.blocks_capacity) 90)
      ∷ up_if (ltb (used m.queues.transactions m.queues.transactions_capacity) 90)
      ∷ details 0 120 600 m.block_checkpoint.block
      ∷ details 1 120 600 m.vcp_checkpoint.block
      ∷ details 2 60 600 m.components.block_fetcher.last_block
      ∷ details 3 60 600 m.components.block_processor.last_block
      ∷ [])
    ++ ((if m.components.transaction_processor.enabled
          then details 4 60 600 m.components.transaction_processor.last_block ∷ []
          else [])
        ++ ((if m.components.virtual_chain_processor.enabled
              then details 5 60 600 m.components.virtual_chain_processor.last_block ∷ []
              else [])
            ++ pruner_status m ∷ []))

abbrev pub is_down : HealthStatus → Bool
is_down up = false
is_down warn = false
is_down down = true

abbrev pub is_warn : HealthStatus → Bool
is_warn up = false
is_warn warn = true
is_warn down = false

unfoldable pub some_status : (HealthStatus → Bool) → List HealthStatus → Bool
some_status p [] = false
some_status p (s ∷ rest) = p s || some_status p rest

unfoldable pub indexer_health : (ℕ → ℕ → ℕ) → Metrics → Option ℕ → (ℕ → ℕ) → HealthStatus
unfolding health_details some_status
indexer_health used m current_daa now =
    let details = health_details used m current_daa now in
    if some_status is_down details then down else if some_status is_warn details then warn else up

-- What the node answers: an error, or whether it is synced, and its score.
pub data Kaspad : Type 0 where
  failed : Kaspad
  answered : (is_synced : Bool) → (virtual_daa_score : ℕ) → Kaspad

abbrev pub kaspad_status : Kaspad → HealthStatus
kaspad_status failed = down
kaspad_status (answered is_synced virtual_daa_score) = if is_synced then up else down

abbrev pub virtual_daa_score : Kaspad → Option ℕ
virtual_daa_score failed = none
virtual_daa_score (answered is_synced score) = some score

abbrev pub status_code : HealthStatus → ℕ
status_code status = if not (is_down status) then 200 else 503

-- The state of the report and the code of the response, from the metrics.
unfoldable pub health_response : (ℕ → ℕ → ℕ) → Metrics → Kaspad → (ℕ → ℕ) → HealthStatus × ℕ
unfolding indexer_health
health_response used m kaspad now =
    let health_indexer = indexer_health used m (virtual_daa_score kaspad) now in
    let status = if is_down (kaspad_status kaspad) then down else health_indexer in
    (status, status_code status)

unfoldable pub get_health :
    (ℕ → ℕ → ℕ)
    → System
    → Option DatabaseDetails
    → Option (List TableDetails)
    → Metrics
    → Kaspad
    → (ℕ → ℕ)
    → Option (HealthStatus × ℕ)
unfolding update_metrics health_response
get_health used system details tables m kaspad now = do
  m' ← update_metrics system details tables m
  some (health_response used m' kaspad now)
