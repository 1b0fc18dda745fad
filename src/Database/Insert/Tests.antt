-- ===== src/Database/Insert/Tests.antt =====
-- Two rows of block_parent in one statement.
use simply_kaspa_indexer.Prelude.{◌≡◌, List, [], ◌∷◌}
use simply_kaspa_indexer.Models.{BlockParent}
use simply_kaspa_indexer.Database.Insert.{into_block_parent, statement}
use simply_kaspa_indexer.Database.Insert.Binds.{stored, described, stored-statement}

abbrev two_rows : List BlockParent
two_rows =
    record { block_hash = 1 ∷ []; parent_hash = 2 ∷ [] }
    ∷ record { block_hash = 3 ∷ []; parent_hash = 4 ∷ [] }
    ∷ []

stored-statement_example :
    stored (statement (into_block_parent two_rows)) ≡ described (into_block_parent two_rows)
stored-statement_example = stored-statement (into_block_parent two_rows)
