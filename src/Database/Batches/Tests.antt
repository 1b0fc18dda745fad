-- ===== src/Database/Batches/Tests.antt =====
-- The smallest scale that is admitted, and three rows.
use Prim.Native.Nat.{ℕ, ◌/◌}
use simply_kaspa_indexer.Prelude.{[], ◌∷◌}
use simply_kaspa_indexer.Models.{BlockParent}

abbrev tenth : ℕ → ℕ
tenth n = n / 10

abbrev row : ℕ → BlockParent
row n = record { block_hash = n ∷ []; parent_hash = 0 ∷ [] }
