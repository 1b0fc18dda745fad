-- ===== src/Database/Split/Tests.antt =====
-- Two statements, with a semicolon in a string.
use simply_kaspa_indexer.Prelude.{some, ◌≡◌, refl, List, [], ◌∷◌, Bytes, arith}
use simply_kaspa_indexer.Models.{bytes_eq}
use simply_kaspa_indexer.Database.Split.Fuel.{split_statements_fuel}
use simply_kaspa_indexer.Database.Split.{split_from, split_statements, trim, trim_start, trim_end}
use simply_kaspa_indexer.Database.Split.Plain.{Part, plain, quoted, script, split_statements-script}

-- ` A';'B; C ;`
abbrev parts : List (List Part)
parts =
    (plain b' ' ∷ plain b'A' ∷ quoted (b';' ∷ []) b'B' ∷ [])
    ∷ (plain b' ' ∷ plain b'C' ∷ plain b' ' ∷ [])
    ∷ []

split_statements-script_example :
    split_statements (script parts) ≡ some ((b'A' ∷ 39 ∷ b';' ∷ 39 ∷ b'B' ∷ []) ∷ (b'C' ∷ []) ∷ [])
unfolding trim trim_start trim_end
split_statements-script_example = split_statements-script parts (omega arith)

-- A body in dollar quotes and a line comment.
abbrev body : Bytes
body = b'$' ∷ b'$' ∷ b';' ∷ b'$' ∷ b'$' ∷ b';' ∷ b'-' ∷ b'-' ∷ b';' ∷ []

split_body :
    split_statements body
    ≡ some ((b'$' ∷ b'$' ∷ b';' ∷ b'$' ∷ b'$' ∷ []) ∷ (b'-' ∷ b'-' ∷ b';' ∷ []) ∷ [])
unfolding split_statements trim trim_start trim_end bytes_eq
split_body = refl

split_statements_fuel_example :
    (found : List Bytes) × (split_statements body ≡ some found)
    × (split_from 20 [] body ≡ some found)
split_statements_fuel_example = split_statements_fuel 20 body (omega arith)
