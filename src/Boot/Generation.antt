-- ===== src/Boot/Generation.antt =====
-- internal/store/dbstate.go: the boot counter in the database and its copy in a file beside it.
use piecesoflife.Prelude.{
  ℕ, suc, ◌-◌, Option, none, some, List, [], ◌∷◌, if◌then◌else◌, leb, length,
}
use piecesoflife.Boot.State.{
  DataDirState, StateFile, written, garbled, Directory, Boot, unparsable, stale, pure, raise, look,
  change, or_clean, ◌>>=◌, ◌>>◌,
}

-- COUNT(*), and MAX(version) with 0 for NULL
abbrev pub max_version : List ℕ → ℕ
max_version [] = 0
max_version (v ∷ vs) = let m = max_version vs in if leb m v then v else m

abbrev pub version_counts : Option (List ℕ) → ℕ × ℕ
version_counts none = (0, 0)
version_counts (some vs) = (length vs, max_version vs)

abbrev pub payload_of : ℕ → ℕ × ℕ → DataDirState
payload_of generation counts = record {
  generation = generation;
  schema_version = counts.1;
  applied_count = counts.0;
}

module _ {S : Type 0} where
  unfoldable pub migration_state : Boot S (ℕ × ℕ)
  migration_state = look (λ d. version_counts d.db.versions)

  unfoldable pub data_generation : Boot S ℕ
  data_generation = look (λ d. d.db.generation)

  abbrev pub with_generation : ℕ → Directory S → Directory S
  with_generation g d = record d { db = record d.db { generation = g } }

  unfoldable pub set_data_generation : ℕ → Boot S (Unit {0})
  set_data_generation g = change (with_generation g)

  unfoldable pub parse_state : Option StateFile → Boot S (Option DataDirState)
  parse_state none = pure none
  parse_state (some (written s)) = pure (some s)
  parse_state (some garbled) = raise unparsable

  unfoldable pub read_data_dir_state : Boot S (Option DataDirState)
  read_data_dir_state = do file ← look (λ d. d.sidecar); parse_state file

  abbrev pub check_generation : Option DataDirState → ℕ → Boot S (Unit {0})
  check_generation none generation = pure tt
  check_generation (some prev) generation =
      if leb prev.generation generation then pure tt else raise stale

  unfoldable pub verify_data_directory : Boot S (Unit {0})
  verify_data_directory = do
    prev ← read_data_dir_state
    generation ← data_generation
    check_generation prev generation

  abbrev pub one_temp_less : Directory S → Directory S
  one_temp_less d = record d { temps = d.temps - 1 }

  abbrev pub install : DataDirState → Directory S → Directory S
  install payload d = record (one_temp_less d) { sidecar = some (written payload) }

  -- Write, Sync, Chmod, Close, Rename
  unfoldable pub fill_and_install : DataDirState → Boot S (Unit {0})
  fill_and_install payload = do
    change (λ d. d)
    change (λ d. d)
    change (λ d. d)
    change (λ d. d)
    change (install payload)

  unfoldable pub write_state_file : DataDirState → Boot S (Unit {0})
  write_state_file payload = do
    change (λ d. record d { temps = suc d.temps })
    or_clean (fill_and_install payload) one_temp_less

  unfoldable pub record_data_directory_state : Boot S (Unit {0})
  record_data_directory_state = do
    counts ← migration_state
    generation ← data_generation
    set_data_generation (suc generation)
    write_state_file (payload_of (suc generation) counts)
