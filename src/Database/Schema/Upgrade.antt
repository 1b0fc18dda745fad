-- ===== src/Database/Schema/Upgrade.antt =====
-- What `create_schema` does at each version, when the statements succeed and when one fails.
use simply_kaspa_indexer.Prelude.{
  subst, All-Any_elim, inr, ltb, ◌≢◌, inl, arith, Bytes, Bool, ℕ, ◌≡◌, refl, true, some, List, [],
  ◌∷◌, ◌++◌, leb, if◌then◌else◌, All, Any,
}
use simply_kaspa_indexer.Database.Schema.{
  Postgres, schema_version, panicked, parse_u8, create_schema, Script, upgrade, Statement, other,
  set_version, drop_vars, print_version, statements, upgrades, Db, returned, ◌>>=◌, upgrade_steps,
  check_version,
}

-- The versions that a script of the upgrade chain starts from: 1 to 10 and 20 to 22.
abbrev pub IsUpgradable : ℕ → Type 0
IsUpgradable v = Any (λ (u : ℕ × ℕ). u.0 ≡ v) upgrades

-- The scripts from a version on.
abbrev pub scripts_from : ℕ → List (ℕ × ℕ) → List Script
scripts_from v [] = []
scripts_from v (u ∷ us) =
    let rest = scripts_from v us in if leb v u.0 then upgrade u.0 u.1 ∷ rest else rest

abbrev pub all_statements : List Script → List Statement
all_statements [] = []
all_statements (s ∷ ss) = statements s ++ all_statements ss

at_version : (P : ℕ → Type 0) (v : ℕ) → All (λ (u : ℕ × ℕ). P u.0) upgrades → IsUpgradable v → P v
at_version P v h known =
    All-Any_elim {P = λ u. P u.0} {Q = λ u. u.0 ≡ v} (λ u p e. subst P e p) upgrades h known

each_low : All (λ (u : ℕ × ℕ). ltb u.0 schema_version ≡ true) upgrades
each_low = (
  refl,
  (
    refl,
    (refl, (refl, (refl, (refl, (refl, (refl, (refl, (refl, (refl, (refl, (refl, tt))))))))))),
  ),
)

module _ {T : Type 0} (apply : Script → ℕ → T → T) where
  -- PostgreSQL, where no statement fails.
  abbrev pub succeeding : Postgres T
  succeeding = record {
    selects = (true, true);
    acquires = λ s. true;
    run_other = λ s i t. some (apply s i t);
    sets_version = λ v t. true;
    drops_vars = λ t. true;
  }

  -- What a list of statements makes of the tables.
  abbrev pub effect : List Statement → T → T
  effect [] t = t
  effect (other s i ∷ ss) t = effect ss (apply s i t)
  effect (set_version v ∷ ss) t = effect ss t
  effect (drop_vars ∷ ss) t = effect ss t

  abbrev pub upgraded : ℕ → Db T → Db T
  upgraded v db = record {
    version = some (print_version 23);
    tables = effect (all_statements (scripts_from v upgrades)) db.tables;
  }

  abbrev Upgrades : ℕ → Type 0
  Upgrades v =
      (db : Db T)
      → (upgrade_steps succeeding true upgrades v db >>= λ _ db'. check_version succeeding db')
        ≡ returned tt (upgraded v db)

  each_upgrade : All (λ (u : ℕ × ℕ). Upgrades u.0) upgrades
  unfolding upgrade_steps check_version statements print_version
  each_upgrade = (
    λ db. refl,
    (
      λ db. refl,
      (
        λ db. refl,
        (
          λ db. refl,
          (
            λ db. refl,
            (
              λ db. refl,
              (
                λ db. refl,
                (
                  λ db. refl,
                  (λ db. refl, (λ db. refl, (λ db. refl, (λ db. refl, (λ db. refl, tt))))),
                ),
              ),
            ),
          ),
        ),
      ),
    ),
  )

  -- Where no statement fails and upgrades are allowed, a database at any version that has an
  -- upgrade script ends at version 23, with the statements of exactly the scripts from its version
  -- on applied to its tables, in order.
  pub create_schema_upgrades :
      (v : ℕ) (text : Bytes) (db : Db T)
      → IsUpgradable v
      → db.version ≡ some text
      → parse_u8 text ≡ some v
      → create_schema succeeding true db ≡ returned tt (upgraded v db)
  unfolding create_schema
  create_schema_upgrades v text db known e p =
      rw (e, create_schema, p, at_version (λ x. ltb x schema_version ≡ true) v each_low known)
        (at_version Upgrades v each_upgrade known db)

module _ {T : Type 0} (pg : Postgres T) where
  upgrade_steps_skips :
      (b : Bool) (us : List (ℕ × ℕ)) (v : ℕ) (db : Db T)
      → ¬ Any (λ (u : ℕ × ℕ). u.0 ≡ v) us
      → upgrade_steps pg b us v db ≡ returned v db
  unfolding upgrade_steps
  upgrade_steps_skips b [] v db h = refl
  upgrade_steps_skips b (u ∷ us) v db h =
      ground (arith, h, λ (e : u.0 ≡ v). h (inl e), upgrade_steps_skips b us v db (λ m. h (inr m)))

  -- A database that answers with version 23 is left as it is.
  pub create_schema_current :
      (b : Bool) (text : Bytes) (db : Db T)
      → pg.selects ≡ (true, true)
      → db.version ≡ some text
      → parse_u8 text ≡ some 23
      → create_schema pg b db ≡ returned tt db
  unfolding create_schema
  create_schema_current b text db answers e p = ground arith

  -- At any other version without a script that PostgreSQL answers with, the program stops and no statement is sent, with or
  -- without leave to upgrade.
  pub create_schema_unsupported :
      (b : Bool) (v : ℕ) (text : Bytes) (db : Db T)
      → ¬ IsUpgradable v
      → v ≢ 23
      → pg.selects ≡ (true, true)
      → db.version ≡ some text
      → parse_u8 text ≡ some v
      → create_schema pg b db ≡ panicked db
  unfolding create_schema
  create_schema_unsupported b v text db unknown other_version answers e p =
      rw (answers, e, create_schema, p)
        (ground (arith, upgrade_steps_skips b upgrades v db unknown))
