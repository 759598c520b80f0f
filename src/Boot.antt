-- ===== src/Boot.antt =====
-- main.go and internal/store: how the program starts on a data directory. `State` has the directory
-- and the actions on it, `Migrations` the upgrade of the schema, `Generation` the boot counter that
-- tells an older copy of the database, and `History` what boots and restores lead to.
pub mod State
pub mod Migrations
pub mod Generation
pub mod History
use piecesoflife.Prelude.{List}
use piecesoflife.Boot.State.{Sql, Boot, ◌>>◌}
use piecesoflife.Boot.Migrations.{Entry, run_migrations}
use piecesoflife.Boot.Generation.{verify_data_directory, record_data_directory_state}

-- main.go: the part of `run` that decides whether to go on with this directory.
unfoldable pub start_database : {S : Type 0} → Sql S → List Entry → Boot S (Unit {0})
start_database sql entries = do
  verify_data_directory
  run_migrations sql entries
  record_data_directory_state
