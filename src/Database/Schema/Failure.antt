-- ===== src/Database/Schema/Failure.antt =====
-- A script that fails half way: what version the database is left at, and what the next start does.
use simply_kaspa_indexer.Prelude.{
  ℕ, zero, suc, ◌+◌, ◌≡◌, refl, Bool, true, false, none, some, List, [], ◌∷◌, ◌++◌, arith, Bytes,
  ◌==◌, ◌&&◌, if◌then◌else◌, inl, inr, Any, Option-cases, Bool-cases,
}
use simply_kaspa_indexer.Database.Schema.{
  Postgres, count_before, Script, up, upgrade, set_version, others, print_version, parse_u8,
  upgrades, Db, returned, failed, panicked, execute_statements, execute_ddl, upgrade_steps,
  create_schema,
}
use simply_kaspa_indexer.Database.Schema.Upgrade.{
  IsUpgradable, succeeding, upgraded, create_schema_upgrades, create_schema_current,
}

module _ {T : Type 0} (pg : Postgres T) where
  refuse_steps :
      (us : List (ℕ × ℕ)) (v : ℕ) (db : Db T)
      → Any (λ (u : ℕ × ℕ). u.0 ≡ v) us
      → upgrade_steps pg false us v db ≡ panicked db
  unfolding upgrade_steps
  refuse_steps [] v db h = absurd h
  refuse_steps (u ∷ us) v db (inl e) = ground arith
  refuse_steps (u ∷ us) v db (inr h) = ground (arith, refuse_steps us v db h)

  -- Without leave to upgrade, the program stops at any version that PostgreSQL answers with and that has an
  -- upgrade script, and no statement is sent.
  pub create_schema_refuses :
      (v : ℕ) (text : Bytes) (db : Db T)
      → IsUpgradable v
      → pg.selects.0 ≡ true
      → db.version ≡ some text
      → parse_u8 text ≡ some v
      → create_schema pg false db ≡ panicked db
  unfolding create_schema
  create_schema_refuses v text db known answers e p =
      ground (arith, refuse_steps upgrades v db known)

  others_failed :
      (s : Script) (n i : ℕ) (db : Db T) {db' : Db T}
      → execute_statements pg (others s i n) db ≡ failed db'
      → db'.version ≡ db.version
  unfolding others execute_statements
  others_failed s zero i db {db'} h = cc
  others_failed s (suc n) i db {db'} h = elim (Option-cases (pg.run_other s i db.tables)) [
    | inl e ↦ ground arith
    | inr (t, e) ↦ others_failed s n (i + 1) (record db { tables = t }) {db' = db'} (ground arith)
  ]

  bump_failed :
      (s : Script) (v : Bytes) (n i : ℕ) (db : Db T) {db' : Db T}
      → execute_statements pg (others s i n ++ set_version v ∷ []) db ≡ failed db'
      → db'.version ≡ db.version
  unfolding others execute_statements
  bump_failed s v zero i db {db'} h = ground arith
  bump_failed s v (suc n) i db {db'} h = elim (Option-cases (pg.run_other s i db.tables)) [
    | inl e ↦ ground arith
    | inr (t, e) ↦ bump_failed s v n (i + 1) (record db { tables = t }) {db' = db'} (ground arith)
  ]

  set_failed :
      (s : Script) (v : Bytes) (n i : ℕ) (db : Db T) {db' : Db T}
      → pg.sets_version v db.tables ≡ true
      → execute_statements pg (set_version v ∷ others s i n) db ≡ failed db'
      → db'.version ≡ some v
  unfolding execute_statements
  set_failed s v n i db {db'} w h =
      others_failed s n i (record db { version = some v }) {db' = db'}
        (rw (execute_statements, w) at h)

  -- Whether the first statement of the script from version 10 gets through.
  abbrev pub begins : ℕ → ℕ → Db T → Bool
  begins from to db =
      from == 10 && pg.acquires (upgrade from to) && pg.sets_version (print_version 20) db.tables

  -- An upgrade script that fails leaves the version as it was; the script from version 10 is the
  -- exception, and leaves version 20 if the pool had a connection for it and its first statement was
  -- accepted.
  pub execute_ddl-failed_version :
      (from to : ℕ) (db : Db T) {db' : Db T}
      → execute_ddl pg (upgrade from to) db ≡ failed db'
      → db'.version ≡ (if begins from to db then some (print_version 20) else db.version)
  unfolding execute_ddl execute_statements
  execute_ddl-failed_version from to db {db'} h =
      elim (Bool-cases (pg.acquires (upgrade from to))) [
        | inr a ↦ ground arith
        | inl a ↦ elim (Bool-cases (from == 10)) [
          | inl e ↦ elim (Bool-cases (pg.sets_version (print_version 20) db.tables)) [
            | inl w ↦
                rw (e, a, w)
                  (set_failed (upgrade 10 20) (print_version 20) 16 1 db {db' = db'} w
                    (rw (a, e) at h))
            | inr w ↦ ground arith
          ]
          | inr e ↦ rw e (
              bump_failed (upgrade from to) (print_version to) (count_before from) 0 db {db' = db'}
                (rw (a, e) at h))
        ]
      ]

-- If the script from version 10 has a connection, its first statement is accepted and a later one fails, a next start
-- with leave to upgrade, in which nothing fails, goes on from version 20: it sends the statements of
-- the later scripts only, and reports success.
pub create_schema-after_v20_failure :
    {T : Type 0} (pg : Postgres T) (apply : Script → ℕ → T → T) (db : Db T) {db' : Db T}
    → pg.acquires (upgrade 10 20) ≡ true
    → pg.sets_version (print_version 20) db.tables ≡ true
    → execute_ddl pg (upgrade 10 20) db ≡ failed db'
    → create_schema (succeeding apply) true db' ≡ returned tt (upgraded apply 20 db')
unfolding print_version parse_u8
create_schema-after_v20_failure pg apply db {db'} connected accepted h =
    create_schema_upgrades apply 20 (print_version 20) db' twenty
      (rw (connected, accepted) at (execute_ddl-failed_version pg 10 20 db h)) refl
  where
    twenty : IsUpgradable 20
    twenty = inr (inr (inr (inr (inr (inr (inr (inr (inr (inr (inl refl))))))))))

-- If a start on an empty database has a connection for `up.sql`, gets through its first two statements and then
-- fails, the next start, with any PostgreSQL that answers the questions for the version, sends no statement
-- and reports success.
pub create_schema-after_up_failure :
    {T : Type 0} (pg next : Postgres T) (b b' : Bool) (t : T) (db : Db T) {db' : Db T}
    → db.version ≡ none
    → pg.acquires up ≡ true
    → pg.run_other up 0 db.tables ≡ some t
    → pg.sets_version (print_version 23) t ≡ true
    → next.selects ≡ (true, true)
    → create_schema pg b db ≡ failed db'
    → create_schema next b' db' ≡ returned tt db'
unfolding create_schema execute_ddl execute_statements print_version parse_u8
create_schema-after_up_failure pg next b b' t db {db'} empty connected first second answers h =
    create_schema_current next b' (print_version 23) db' answers
      (others_failed pg up 14 2 (record { version = some (print_version 23); tables = t })
        {db' = db'} (ground arith))
      refl
