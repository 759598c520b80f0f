-- ===== src/Boot/History/Guard.antt =====
-- internal/store/dbstate.go: which databases the guard of the data directory lets through.
use piecesoflife.Prelude.{
  ℕ, suc, ◌≤◌, ◌≡◌, refl, if◌then◌else◌, Option, none, some, List, [], leb, ◌∙◌, arith,
}
use piecesoflife.Boot.State.{
  Sql, Directory, StateFile, written, garbled, Step, done, Outcome, stopped, stale, unparsable,
  pure, raise, look, ◌>>=◌,
}
use piecesoflife.Boot.Migrations.{Entry, with_db}
use piecesoflife.Boot.Generation.{
  parse_state, read_data_dir_state, data_generation, verify_data_directory,
}
use piecesoflife.Boot.{start_database}
use piecesoflife.Boot.History.{Runs, power_on}
use piecesoflife.Boot.History.Marks.{Agrees, Says, IsCurrent}
use piecesoflife.Boot.History.Mono.{start-Says, start-Later, Runs-Later}

Says-less : (m n : ℕ) (file : Option StateFile) → m ≤ n → Says n file → Says m file
Says-less m n none h s = s
Says-less m n (some (written p)) h s = omega (arith, h, s)
Says-less m n (some garbled) h s = s

-- What the guard says of a file and a counter.
abbrev verdict : Option StateFile → ℕ → Outcome (Unit {0})
verdict none g = done tt
verdict (some (written p)) g = if leb p.generation g then done tt else stopped stale
verdict (some garbled) g = stopped unparsable

verdict_current : (file : Option StateFile) (g : ℕ) → Agrees file g → verdict file g ≡ done tt
verdict_current none g h = refl
verdict_current (some (written p)) g h = ground arith
verdict_current (some garbled) g h = cc

verdict_stale :
    (file : Option StateFile) (g : ℕ) → Says (suc g) file → verdict file g ≡ stopped stale
verdict_stale none g h = cc
verdict_stale (some (written p)) g h = ground arith
verdict_stale (some garbled) g h = cc

module _ {S : Type 0} where
  verify_run :
      (d : Directory S)
      → (verify_data_directory (power_on [] d)).0 ≡ verdict d.sidecar d.db.generation
  unfolding verify_data_directory read_data_dir_state data_generation parse_state look pure raise
      ◌>>=◌
  verify_run d = ground arith

  module _ (sql : Sql S) where
    -- Whatever boots a data directory has had, of any releases, finished, failed or cut off at any
    -- step, and whatever the program has written between them, the guard lets its own database
    -- through. The file beside the database, if there is one, was not ahead of it at the beginning.
    pub own_database_accepted :
        (d e : Directory S)
        → IsCurrent d
        → Runs sql d e
        → (verify_data_directory (power_on [] e)).0 ≡ done tt
    own_database_accepted d e c r =
        verify_run e ∙ verdict_current e.sidecar e.db.generation ((Runs-Later sql d e r).current c)

    -- A copy of the database is refused once a later boot has finished: let the directory run on
    -- from `d`, where the copy was taken, to `e`, then boot without an error, then run on to `f`.
    -- The guard stops a boot of `f` with the copy of `d` in place of its database. The file beside
    -- the database, if there was one, was not ahead of it at `d`.
    pub stale_copy_refused :
        (d e f : Directory S) (entries : List Entry) (steps : List Step)
        → IsCurrent d
        → Runs sql d e
        → (start_database sql entries (power_on steps e)).0 ≡ done tt
        → Runs sql (start_database sql entries (power_on steps e)).1 f
        → (verify_data_directory (power_on [] (with_db d.db f))).0 ≡ stopped stale
    stale_copy_refused d e f entries steps c before ok after =
        let run = Runs-Later sql d e before in
        let booted : Directory S = (start_database sql entries (power_on steps e)).1 in
        let first = start-Says sql entries (power_on steps e) ok in
        let boot_later = start-Later sql entries (power_on steps e) in
        let last =
          (Runs-Later sql booted f after).says (boot_later.current (run.current c))
            (suc d.db.generation)
            (Says-less (suc d.db.generation) (suc e.db.generation) booted.sidecar
              (omega (arith, run.grows)) first) in
        verify_run (with_db d.db f) ∙ verdict_stale f.sidecar d.db.generation last
