-- ===== src/Metrics/Tables.antt =====
-- database/src/models/query: what the database says of itself and its tables, with the part of
-- indexer/src/web/model/metrics.rs that shows it.
use simply_kaspa_indexer.Prelude.{ℕ, ◌-◌, ◌^◌, Bytes, ℤ, pos, negsuc}

-- `as u64` of an i64 or an i32.
unfoldable pub as_u64 : ℤ → ℕ
as_u64 (pos n) = n
as_u64 (negsuc n) = 2 ^ 64 - 1 - n

pub record DatabaseDetails : Type 0 where
  pub database_name : Bytes
  pub schema_name : Bytes
  pub database_size : ℤ
  pub active_queries : ℤ
  pub blocked_queries : ℤ
  pub active_connections : ℤ
  pub max_connections : ℤ
  pub deadlocks : ℤ

pub record TableDetails : Type 0 where
  pub name : Bytes
  pub total_size : ℤ
  pub indexes_size : ℤ
  pub approximate_row_count : ℤ

pub record MetricsDbTable : Type 0 where
  pub name : Bytes
  pub total_size : ℕ
  pub indexes_size : ℕ
  pub approximate_row_count : ℕ

-- `From<TableDetails> for MetricsDbTable`.
unfoldable pub db_table : TableDetails → MetricsDbTable
unfolding as_u64
db_table t = record {
  name = t.name;
  total_size = as_u64 t.total_size;
  indexes_size = as_u64 t.indexes_size;
  approximate_row_count = as_u64 t.approximate_row_count;
}
