-- ===== src/Boot/Migrations.antt =====
-- internal/store/store.go: the migrations of the schema.
use piecesoflife.Prelude.{
  ℕ, String, Bool, true, false, Option, none, some, List, [], ◌∷◌, ◌++◌, ◌==◌, if◌then◌else◌,
  length, exists_where,
}
use piecesoflife.Boot.State.{
  Sql, Database, Directory, Boot, io, crashed, is_crashed, Outcome, done, stopped, Step, works,
  fails, dies, next_step, stepped, assign, bad_name, script_failed, dangling, pure, raise, look,
  change, ◌>>=◌, ◌>>◌,
}

-- A file of the migrations' directory, in the order of the names. `version` is what `extractVersion`
-- makes of the name, and `fk_off` says whether the text has the marker "migrate:fk_off".
pub record Entry : Type 0 where
  pub is_sql : Bool
  pub version : Option ℕ
  pub fk_off : Bool
  pub text : String

pub record PendingMigration : Type 0 where
  pub version : ℕ
  pub fk_off : Bool
  pub text : String

abbrev pub versions_of : Option (List ℕ) → List ℕ
versions_of none = []
versions_of (some vs) = vs

abbrev pub pending_migration : Entry → ℕ → PendingMigration
pending_migration e v = record { version = v; fk_off = e.fk_off; text = e.text }

module _ {S : Type 0} where
  abbrev pub with_db : Database S → Directory S → Directory S
  with_db db d = record d { db = db }

  abbrev pub has_version : ℕ → Database S → Bool
  has_version v db = exists_where (λ k. k == v) (versions_of db.versions)

  -- CREATE TABLE IF NOT EXISTS schema_migrations
  unfoldable pub create_versions_table : Boot S (Unit {0})
  create_versions_table =
      change (λ d. with_db (record d.db { versions = some (versions_of d.db.versions) }) d)

  unfoldable pub named_pending : Entry → Option ℕ → Boot S (List PendingMigration)
  named_pending e none = raise bad_name
  named_pending e (some v) = do
    applied ← look (λ d. has_version v d.db)
    pure (if applied then [] else pending_migration e v ∷ [])

  unfoldable pub entry_pending : Entry → Boot S (List PendingMigration)
  entry_pending e = if e.is_sql then named_pending e e.version else pure []

  -- The first pass: the files whose version is not applied yet.
  unfoldable pub list_pending : List Entry → Boot S (List PendingMigration)
  list_pending [] = pure []
  list_pending (e ∷ es) = do first ← entry_pending e; rest ← list_pending es; pure (first ++ rest)

  -- VACUUM INTO
  unfoldable pub backup_before_migration : Boot S (Unit {0})
  backup_before_migration = change (λ d. record d { backups = d.db ∷ d.backups })

  abbrev pub undone :
      Database S → Outcome (Unit {0}) × Directory S → Outcome (Unit {0}) × Directory S
  undone old (done u, d) = (done u, d)
  undone old (stopped e, d) = (stopped e, with_db old d)

  abbrev pub framed_migration : Boot S (Unit {0}) → Boot S (Unit {0})
  framed_migration m = do change (λ d. d); m; change (λ d. d)

  -- A transaction that does not get to its commit has written nothing.
  unfoldable pub migration_transaction : Boot S (Unit {0}) → Boot S (Unit {0})
  migration_transaction m d = undone d.db (framed_migration m d)

  unfoldable pub store_tables : Option S → Boot S (Unit {0})
  store_tables none = raise script_failed
  store_tables (some t) = assign (λ d. with_db (record d.db { tables = t }) d)

  -- version INTEGER PRIMARY KEY
  unfoldable pub record_version : ℕ → Boot S (Unit {0})
  record_version v = do
    taken ← look (λ d. has_version v d.db)
    if taken
        then raise io
        else assign
            (λ d. with_db (record d.db { versions = some (versions_of d.db.versions ++ v ∷ []) }) d)

  unfoldable pub check_references : Sql S → Bool → Boot S (Unit {0})
  check_references sql false = pure tt
  check_references sql true = do
    n ← look (λ d. sql.violations d.db.tables)
    if n == 0 then pure tt else raise dangling

  abbrev pub set_foreign_keys : Bool → Directory S → Directory S
  set_foreign_keys b d = record d { foreign_keys = b }

  abbrev pub keys_back : Outcome (Unit {0}) → Step → Directory S → Outcome (Unit {0}) × Directory S
  keys_back r works d = (r, set_foreign_keys true (stepped d))
  keys_back r fails d = (r, stepped d)
  keys_back r dies d = (stopped crashed, stepped d)

  -- `defer … PRAGMA foreign_keys=ON`, whose failure is only logged.
  unfoldable pub with_keys_back : Boot S (Unit {0}) → Boot S (Unit {0})
  with_keys_back m d =
      let (r, d') = m d in if is_crashed r then (r, d') else keys_back r (next_step d'.steps) d'

  unfoldable pub run_script : Sql S → PendingMigration → Boot S (Unit {0})
  run_script sql mig = migration_transaction (do
    tables ← look (λ d. sql.execute mig.text d.db.tables)
    store_tables tables
    check_references sql mig.fk_off
    record_version mig.version)

  unfoldable pub apply_migration : Sql S → PendingMigration → Boot S (Unit {0})
  apply_migration sql mig =
      if mig.fk_off
      then (do change (set_foreign_keys false); with_keys_back (run_script sql mig))
      else run_script sql mig

  unfoldable pub apply_all : Sql S → List PendingMigration → Boot S (Unit {0})
  apply_all sql [] = pure tt
  apply_all sql (mig ∷ migs) = do apply_migration sql mig; apply_all sql migs

  -- A database that has some migrations already is copied first.
  unfoldable pub upgrade : Sql S → ℕ → List PendingMigration → Boot S (Unit {0})
  upgrade sql applied_count [] = pure tt
  upgrade sql applied_count (mig ∷ migs) = do
    if applied_count == 0 then pure tt else backup_before_migration
    apply_all sql (mig ∷ migs)

  unfoldable pub run_migrations : Sql S → List Entry → Boot S (Unit {0})
  run_migrations sql entries = do
    create_versions_table
    applied_count ← look (λ d. length (versions_of d.db.versions))
    pending ← list_pending entries
    upgrade sql applied_count pending
