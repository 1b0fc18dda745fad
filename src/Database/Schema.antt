-- ===== src/Database/Schema.antt =====
-- database/src/client.rs `create_schema` and `drop_schema`, database/src/query/misc.rs
-- `execute_ddl`, and the scripts of database/migrations/schema as the lists of statements that
-- `split_statements` makes of them. A statement that writes `schema_version` is spelled out. What
-- any other one does to the tables, and whether PostgreSQL does what it is asked to, is a parameter.
mod Tests
pub mod Upgrade
pub mod Failure
use mathlib.Core.Option
use simply_kaspa_indexer.Prelude.{
  ◌%◌, ◌/◌, suc, ℕ, ◌+◌, ◌-◌, ◌*◌, zero, suc, ◌/◌, ◌%◌, Bool, ◌&&◌, Option, none, some, List, [],
  ◌∷◌, ◌++◌, Bytes, true, false, ltb, leb, ◌==◌, if◌then◌else◌,
}

-- The files `up.sql`, `down.sql` and `v<from>_to_v<to>.sql`.
pub data Script : Type 0 where
  up down : Script
  upgrade : (from to : ℕ) → Script

-- The statement at a place of a script, a write of the version as text, or the last statement of
-- `down.sql`, which drops the table with the version.
pub data Statement : Type 0 where
  other : Script → ℕ → Statement
  set_version : Bytes → Statement
  drop_vars : Statement

-- The statements of a script at the places from `i` on, `n` of them.
unfoldable pub others : Script → ℕ → ℕ → List Statement
others s i zero = []
others s i (suc n) = other s i ∷ others s (i + 1) n

digit : ℕ → ℕ
digit d = b'0' + d

-- The text of a number below 100.
unfoldable pub print_version : ℕ → Bytes
unfolding digit
print_version n = if ltb n 10 then digit n ∷ [] else digit (n / 10) ∷ digit (n % 10) ∷ []

-- A script whose last statement writes the version, behind `n` others.
abbrev bump_last : ℕ → ℕ → ℕ → List Statement
bump_last from to n = others (upgrade from to) 0 n ++ set_version (print_version to) ∷ []

-- How many statements stand before the last one in `v<from>_to_v<from + 1>.sql`.
abbrev pub count_before : ℕ → ℕ
count_before from =
    if from == 1
    then 6
    else if from == 2
    then 5
    else if from == 8
    then 3
    else if from == 9
    then 0
    else if from == 20
    then 13
    else if from == 21
    then 4
    else if from == 22
    then 17
    else 2

unfoldable pub statements : Script → List Statement
unfolding others print_version
statements up = other up 0 ∷ set_version (print_version 23) ∷ others up 2 14
statements down = others down 0 9 ++ drop_vars ∷ []
statements (upgrade from to) =
    if from == 10
    then set_version (print_version 20) ∷ others (upgrade 10 20) 1 16
    else bump_last from to (count_before from)

-- `v.parse::<u8>()`: an optional `+`, then decimal digits, at most 255.
parse_digits : ℕ → Bytes → Option ℕ
parse_digits n [] = some n
parse_digits n (c ∷ cs) =
    let rest = parse_digits (n * 10 + (c - b'0')) cs in
    if leb b'0' c && leb c b'9' && leb (n * 10 + (c - b'0')) 255 then rest else none

parse_unsigned : Bytes → Option ℕ
parse_unsigned [] = none
parse_unsigned (c ∷ cs) = parse_digits 0 (c ∷ cs)

parse_signed : Bytes → Option ℕ
parse_signed [] = none
parse_signed (c ∷ cs) = if c == b'+' then parse_unsigned cs else parse_unsigned (c ∷ cs)

unfoldable pub parse_u8 : Bytes → Option ℕ
unfolding parse_signed parse_unsigned parse_digits
parse_u8 s = parse_signed s

abbrev pub schema_version : ℕ
schema_version = 23

-- The conditions `if version == from { ... }` of `create_schema`, in the order of the code. The
-- second number is the version that the branch goes on with.
abbrev pub upgrades : List (ℕ × ℕ)
upgrades =
    (1, 2)
    ∷ (2, 3)
    ∷ (3, 4)
    ∷ (4, 5)
    ∷ (5, 6)
    ∷ (6, 7)
    ∷ (7, 8)
    ∷ (8, 9)
    ∷ (9, 10)
    ∷ (10, 20)
    ∷ (20, 21)
    ∷ (21, 22)
    ∷ (22, 23)
    ∷ []

-- The `schema_version` row of the table `vars`, if there is one, and all other data.
pub record Db (T : Type 0) : Type 0 where
  pub version : Option Bytes
  pub tables : T

-- How a call ends: with a value, with `Err`, or with a panic, and the database that it leaves.
pub data Done (T : Type 0) (A : Type 0) : Type 0 where
  returned : A → Db T → Done T A
  failed : Db T → Done T A
  panicked : Db T → Done T A

module _ {T : Type 0} where
  infixl 5 ◌>>=◌
  abbrev pub ◌>>=◌ : {A B : Type 0} → Done T A → (A → Db T → Done T B) → Done T B
  returned a db >>= f = f a db
  failed db >>= f = failed db
  panicked db >>= f = panicked db

-- How PostgreSQL answers: whether the first and the second question for the version of a start are answered,
-- whether the pool has a connection for a script, what a statement makes of the tables (`none` is an error),
-- whether a write of the version is accepted, and whether the table with the version can be dropped.
pub record Postgres (T : Type 0) : Type 0 where
  pub selects : Bool × Bool
  pub acquires : Script → Bool
  pub run_other : Script → ℕ → T → Option T
  pub sets_version : Bytes → T → Bool
  pub drops_vars : T → Bool

module _ {T : Type 0} (pg : Postgres T) where
  unfoldable pub run_statement : Statement → Db T → Option (Db T)
  run_statement (other s i) db =
      Option.map (λ t. record db { tables = t }) (pg.run_other s i db.tables)
  run_statement (set_version v) db =
      if pg.sets_version v db.tables then some (record db { version = some v }) else none
  run_statement drop_vars db =
      if pg.drops_vars db.tables then some (record db { version = none }) else none

  -- One statement after the other, with no transaction around them.
  unfoldable pub execute_statements : List Statement → Db T → Done T (Unit {0})
  unfolding run_statement
  execute_statements [] db = returned tt db
  execute_statements (s ∷ ss) db = elim (run_statement s db) [
    | none ↦ failed db
    | some db' ↦ execute_statements ss db'
  ]

  unfoldable pub execute_ddl : Script → Db T → Done T (Unit {0})
  unfolding execute_statements statements
  execute_ddl s db = if pg.acquires s then execute_statements (statements s) db else failed db

  -- One of the conditions on the version.
  upgrade_step : Bool → ℕ × ℕ → ℕ → Db T → Done T ℕ
  unfolding execute_ddl
  upgrade_step upgrade_db (from, to) version db =
      if version == from
      then (if upgrade_db
          then (execute_ddl (upgrade from to) db >>= λ _ db'. returned to db')
          else panicked db)
      else returned version db

  upgrade_steps : Bool → List (ℕ × ℕ) → ℕ → Db T → Done T ℕ
  unfolding upgrade_step
  upgrade_steps upgrade_db [] version db = returned version db
  upgrade_steps upgrade_db (u ∷ us) version db =
      upgrade_step upgrade_db u version db >>= upgrade_steps upgrade_db us

  -- `select_var("schema_version")`; `none` is an error, also where there is no such row.
  abbrev pub select_version : Bool → Db T → Option Bytes
  select_version answers db = if answers then db.version else none

  -- The check of the version that the database holds in the end.
  check_version : Db T → Done T (Unit {0})
  unfolding parse_u8
  check_version db = elim (select_version pg.selects.1 db) [
    | none ↦ failed db
    | some v ↦ elim (parse_u8 v) [
      | none ↦ panicked db
      | some version ↦
          if ltb version schema_version
          then panicked db
          else if ltb schema_version version
          then panicked db
          else returned tt db
    ]
  ]

  unfoldable pub create_schema : Bool → Db T → Done T (Unit {0})
  unfolding upgrade_steps check_version parse_u8 execute_ddl
  create_schema upgrade_db db = elim (select_version pg.selects.0 db) [
    | none ↦ execute_ddl up db
    | some v ↦ elim (parse_u8 v) [
      | none ↦ panicked db
      | some version ↦
          if ltb version schema_version
          then (upgrade_steps upgrade_db upgrades version db >>= λ _ db'. check_version db')
          else check_version db
    ]
  ]

  unfoldable pub drop_schema : Db T → Done T (Unit {0})
  unfolding execute_ddl
  drop_schema db = execute_ddl down db
