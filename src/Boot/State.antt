-- ===== src/Boot/State.antt =====
-- internal/store: a data directory on disk, and actions on it that may fail or be cut off.
use piecesoflife.Prelude.{ℕ, String, Bool, true, false, if◌then◌else◌, Option, List, [], ◌∷◌}

-- What the SQL of the migrations does to the tables, which SQLite knows: the tables after a script,
-- if it runs, and the number of dangling foreign keys.
pub record Sql (S : Type 0) : Type 0 where
  pub execute : String → S → Option S
  pub violations : S → ℕ

-- The database file. `generation` is PRAGMA user_version, and `versions` the rows of
-- schema_migrations, or none without that table.
pub record Database (S : Type 0) : Type 0 where
  pub generation : ℕ
  pub versions : Option (List ℕ)
  pub tables : S

pub record DataDirState : Type 0 where
  pub generation : ℕ
  pub schema_version : ℕ
  pub applied_count : ℕ

-- A file that holds a state, or text that does not parse as one.
pub data StateFile : Type 0 where
  written : DataDirState → StateFile
  garbled : StateFile

-- How each coming step goes: it works, it fails with an error, or the process dies in it.
pub data Step : Type 0 where
  works fails dies : Step

-- `sidecar` is the file beside the database, `temps` the temporary files left over, and `backups`
-- the copies made before upgrades, the newest first.
pub record Directory (S : Type 0) : Type 0 where
  pub db : Database S
  pub sidecar : Option StateFile
  pub temps : ℕ
  pub backups : List (Database S)
  pub foreign_keys : Bool
  pub steps : List Step

-- `crashed` is no error of the code: the process is gone.
pub data BootErr : Type 0 where
  io crashed stale unparsable bad_name script_failed dangling : BootErr

pub data Outcome {ℓ} (A : Type ℓ) : Type ℓ where
  done : A → Outcome A
  stopped : BootErr → Outcome A

abbrev pub is_crash : BootErr → Bool
is_crash crashed = true
is_crash e = false

abbrev pub is_crashed : {A : Type 0} → Outcome A → Bool
is_crashed (done a) = false
is_crashed (stopped e) = is_crash e

abbrev pub Boot {ℓ} : Type 0 → Type ℓ → Type ℓ
Boot S A = Directory S → Outcome A × Directory S

abbrev pub next_step : List Step → Step
next_step [] = works
next_step (s ∷ ss) = s

abbrev pub later_steps : List Step → List Step
later_steps [] = []
later_steps (s ∷ ss) = ss

abbrev pub stepped : {S : Type 0} → Directory S → Directory S
stepped d = record d { steps = later_steps d.steps }

module _ {ℓ} {S : Type 0} {A : Type ℓ} where
  unfoldable pub pure : A → Boot S A
  pure a d = (done a, d)

  unfoldable pub raise : BootErr → Boot S A
  raise e d = (stopped e, d)

  -- One step: what it gives and does when it works.
  abbrev pub tried : Step → A → Directory S → Directory S → Outcome A × Directory S
  tried works a new old = (done a, new)
  tried fails a new old = (stopped io, old)
  tried dies a new old = (stopped crashed, old)

  unfoldable pub look : (Directory S → A) → Boot S A
  look f d = tried (next_step d.steps) (f d) (stepped d) (stepped d)

module _ {S : Type 0} where
  unfoldable pub change : (Directory S → Directory S) → Boot S (Unit {0})
  change f d = tried (next_step d.steps) tt (f (stepped d)) (stepped d)

  -- Part of a step.
  unfoldable pub assign : (Directory S → Directory S) → Boot S (Unit {0})
  assign f d = (done tt, f d)

  abbrev pub cleaned :
      (Directory S → Directory S)
      → Outcome (Unit {0})
      → Directory S
      → Outcome (Unit {0}) × Directory S
  cleaned f (done u) d = (done u, d)
  cleaned f (stopped e) d = (stopped e, if is_crash e then d else f d)

  -- The clean-up after an error, which a process that died does not do.
  unfoldable pub or_clean : Boot S (Unit {0}) → (Directory S → Directory S) → Boot S (Unit {0})
  or_clean m f d = let (r, d') = m d in cleaned f r d'

module _ {ℓ κ} {S : Type 0} {A : Type ℓ} {B : Type κ} where
  abbrev pub after : Outcome A → (A → Boot S B) → Boot S B
  after (done a) f d = f a d
  after (stopped e) f d = (stopped e, d)

  infixl 10 ◌>>=◌ ◌>>◌
  unfoldable pub ◌>>=◌ :
      (Directory S → Outcome A × Directory S)
      → (A → Directory S → Outcome B × Directory S)
      → Directory S
      → Outcome B × Directory S
  ◌>>=◌ m f d = let (r, d') = m d in after r f d'

  abbrev pub ◌>>◌ :
      (Directory S → Outcome A × Directory S)
      → (Directory S → Outcome B × Directory S)
      → Directory S
      → Outcome B × Directory S
  m >> n = m >>= λ _. n
