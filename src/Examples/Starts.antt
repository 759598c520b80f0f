-- ===== src/Examples/Starts.antt =====
-- The theorems about the start of the program on a data directory: with scripts that add a table each.
use piecesoflife.Prelude.{String, ◌≡◌, refl, true, false, none, some, List, [], ◌∷◌, ◌++◌}
use piecesoflife.Boot.State.{
  Sql, Directory, Outcome, done, stopped, stale, works, dies, pure, raise, look, change, assign,
  or_clean, ◌>>=◌,
}
use piecesoflife.Boot.Migrations.{
  Entry, named_pending, entry_pending, list_pending, create_versions_table, migration_transaction,
  store_tables, record_version, check_references, run_script, apply_migration, apply_all, upgrade,
  run_migrations, with_db, with_keys_back,
}
use piecesoflife.Boot.Generation.{
  migration_state, data_generation, set_data_generation, parse_state, read_data_dir_state,
  verify_data_directory, fill_and_install, write_state_file, record_data_directory_state,
}
use piecesoflife.Boot.{start_database}
use piecesoflife.Boot.History.{Runs, begin, boot, power_on}
use piecesoflife.Boot.History.Counters.{CounterStep, counters, start_database-CounterStep}
use piecesoflife.Boot.History.Guard.{own_database_accepted, stale_copy_refused}

abbrev scripts : Sql (List String)
scripts = record {
  execute = λ script tables. some (tables ++ script ∷ []);
  violations = λ tables. 0;
}

abbrev releases : List Entry
releases =
    record { is_sql = true; version = some 1; fk_off = false; text = "users" }
    ∷ record { is_sql = true; version = some 2; fk_off = true; text = "groups" }
    ∷ []

abbrev empty : Directory (List String)
empty = record {
  db = record { generation = 0; versions = none; tables = [] };
  sidecar = none;
  temps = 0;
  backups = [];
  foreign_keys = true;
  steps = [];
}

abbrev first_boot : Outcome (Unit {0}) × Directory (List String)
first_boot = start_database scripts releases (power_on [] empty)

-- The second boot dies once the counter of the database is set.
abbrev cut_boot : Outcome (Unit {0}) × Directory (List String)
cut_boot = start_database scripts releases (
    power_on (works ∷ works ∷ works ∷ works ∷ works ∷ works ∷ works ∷ works ∷ works ∷ dies ∷ [])
      first_boot.1)

cut_run : Runs scripts empty cut_boot.1
cut_run = boot (boot begin releases []) releases _

own_database_accepted_example : (verify_data_directory (power_on [] cut_boot.1)).0 ≡ done tt
own_database_accepted_example = own_database_accepted scripts empty cut_boot.1 tt cut_run

first_boot_done : first_boot.0 ≡ done tt
unfolding start_database verify_data_directory read_data_dir_state parse_state data_generation
    run_migrations create_versions_table list_pending entry_pending named_pending upgrade apply_all
    apply_migration run_script migration_transaction store_tables check_references record_version
    with_keys_back record_data_directory_state migration_state set_data_generation write_state_file
    fill_and_install or_clean assign look change pure raise ◌>>=◌
first_boot_done = refl

stale_copy_refused_example :
    (verify_data_directory (power_on [] (with_db empty.db cut_boot.1))).0 ≡ stopped stale
stale_copy_refused_example =
    stale_copy_refused scripts empty empty cut_boot.1 releases [] tt begin first_boot_done
      (boot begin releases _)

start_database-CounterStep_example :
    CounterStep (counters first_boot.1) cut_boot.0 (counters cut_boot.1)
start_database-CounterStep_example = start_database-CounterStep scripts releases (
    power_on (works ∷ works ∷ works ∷ works ∷ works ∷ works ∷ works ∷ works ∷ works ∷ dies ∷ [])
      first_boot.1)
