-- ===== src/Database/Schema/Tests.antt =====
-- Starts on small databases, whose tables are the count of the statements that ran.
use simply_kaspa_indexer.Prelude.{
  ℕ, suc, ◌≡◌, refl, true, false, none, some, arith, inl, inr, ◌==◌, if◌then◌else◌,
}
use simply_kaspa_indexer.Database.Schema.{
  Postgres, Script, print_version, parse_u8, Db, returned, failed, panicked, upgrade, execute_ddl,
  create_schema,
}
use simply_kaspa_indexer.Database.Schema.Upgrade.{
  IsUpgradable, succeeding, upgraded, create_schema_upgrades, create_schema_unsupported,
}
use simply_kaspa_indexer.Database.Schema.Failure.{
  create_schema_refuses, execute_ddl-failed_version, create_schema-after_v20_failure,
  create_schema-after_up_failure,
}

abbrev counting : Script → ℕ → ℕ → ℕ
counting s i t = suc t

-- The statement at place 5 of a script fails.
abbrev fails_at_5 : Postgres ℕ
fails_at_5 = record (succeeding counting) {
  run_other = λ s i t. if i == 5 then none else some (suc t);
}

-- No version is written.
abbrev refusing : Postgres ℕ
refusing = record (succeeding counting) { sets_version = λ v t. false }

abbrev at_version : ℕ → Db ℕ
at_version v = record { version = some (print_version v); tables = 0 }

abbrev fresh : Db ℕ
fresh = record { version = none; tables = 0 }

abbrev nine : IsUpgradable 9
nine = inr (inr (inr (inr (inr (inr (inr (inr (inl refl))))))))

program : Unit {0}
unfolding create_schema print_version parse_u8
program = tt

runs_from_9 :
    create_schema (succeeding counting) true (at_version 9)
    ≡ returned tt (record { version = some (print_version 23); tables = 50 })
unfolding program
runs_from_9 = refl

create_schema_upgrades_example :
    create_schema (succeeding counting) true (at_version 9)
    ≡ returned tt (upgraded counting 9 (at_version 9))
unfolding program
create_schema_upgrades_example =
    create_schema_upgrades counting 9 (print_version 9) (at_version 9) nine refl refl

create_schema_unsupported_example :
    create_schema (succeeding counting) true (at_version 15) ≡ panicked (at_version 15)
unfolding program
create_schema_unsupported_example =
    create_schema_unsupported (succeeding counting) true 15 (print_version 15) (at_version 15)
      (λ h. omega arith) (omega arith) refl refl refl

create_schema_refuses_example :
    create_schema (succeeding counting) false (at_version 9) ≡ panicked (at_version 9)
unfolding program
create_schema_refuses_example =
    create_schema_refuses (succeeding counting) 9 (print_version 9) (at_version 9) nine refl refl
      refl

execute_ddl-failed_version_example :
    (record (at_version 20) { tables = 4 }).version ≡ some (print_version 20)
unfolding program
execute_ddl-failed_version_example =
    execute_ddl-failed_version fails_at_5 10 20 (at_version 10)
      {db' = record (at_version 20) { tables = 4 }} refl

create_schema-after_v20_failure_example :
    create_schema (succeeding counting) true (record (at_version 20) { tables = 4 })
    ≡ returned tt (upgraded counting 20 (record (at_version 20) { tables = 4 }))
unfolding program
create_schema-after_v20_failure_example =
    create_schema-after_v20_failure fails_at_5 counting (at_version 10) refl refl refl

create_schema-after_up_failure_example :
    create_schema (succeeding counting) true (record (at_version 23) { tables = 4 })
    ≡ returned tt (record (at_version 23) { tables = 4 })
unfolding program
create_schema-after_up_failure_example =
    create_schema-after_up_failure fails_at_5 (succeeding counting) false true 1 fresh refl refl
      refl refl refl refl

-- Where the first statement is refused, the version stays.
refused : execute_ddl refusing (upgrade 10 20) (at_version 10) ≡ failed (at_version 10)
unfolding program execute_ddl
refused = refl
