-- ===== src/Boot/History/Mono.antt =====
-- Over any run of a data directory both counters only grow, and the file's never passes the
-- database's.
use piecesoflife.Prelude.{
  ℕ, suc, ◌≤◌, ◌≡◌, refl, sym, ap, subst, ◌∙◌, inl, inr, Option, none, some, List, arith,
}
use piecesoflife.Boot.State.{
  Sql, Directory, Boot, DataDirState, StateFile, written, garbled, Outcome, done, stopped, ◌>>=◌,
  ◌>>◌,
}
use piecesoflife.Boot.Migrations.{Entry, run_migrations}
use piecesoflife.Boot.Generation.{
  parse_state, read_data_dir_state, data_generation, check_generation, verify_data_directory,
  record_data_directory_state,
}
use piecesoflife.Boot.{start_database}
use piecesoflife.Boot.History.{Runs, begin, boot, write, power_on}
use piecesoflife.Boot.History.Still.{Stays, IsStill-refl, still_rules, run_migrations-Stays}
use piecesoflife.Boot.History.Marks.{
  Agrees, Says, IsLater, IsLater-chain, IsStill-IsLater, bind_cases,
}
use piecesoflife.Boot.History.Recorded.{Progress, record-Progress}

Says-monotone : (m n g : ℕ) (file : Option StateFile) → Agrees file g → g ≤ n → Says m file → m ≤ n
Says-monotone m n g none a h s = cc
Says-monotone m n g (some (written p)) a h s = omega (arith, a, h, s)
Says-monotone m n g (some garbled) a h s = cc

Agrees-monotone : (g n : ℕ) (file : Option StateFile) → g ≤ n → Agrees file g → Agrees file n
Agrees-monotone g n none h a = tt
Agrees-monotone g n (some (written p)) h a = omega (arith, h, a)
Agrees-monotone g n (some garbled) h a = a

module _ {S : Type 0} where
  Progress-Later :
      (d : Directory S) (r : Outcome (Unit {0}) × Directory S) → Progress d r → IsLater d r.1
  Progress-Later d r (Progress.nothing still unfinished) = IsStill-IsLater d r.1 still
  Progress-Later d r (Progress.counter same up unfinished) = record {
    current = λ c.
        subst (λ s. Agrees s r.1.db.generation) (sym same)
          (Agrees-monotone d.db.generation r.1.db.generation d.sidecar (omega (arith, up)) c);
    says = λ c m s. subst (Says m) (sym same) s;
    grows = omega (arith, up);
  }
  Progress-Later d r (Progress.file p gen put up) = record {
    current = λ c. subst (λ s. Agrees s r.1.db.generation) (sym put) (omega (arith, gen, up));
    says = λ c m s.
        subst (Says m) (sym put)
          (Says-monotone m p.generation d.db.generation d.sidecar c (omega (arith, gen)) s);
    grows = omega (arith, up);
  }

  -- A recording without an error has left its own counter in the file.
  Progress-Says :
      (d : Directory S) (r : Outcome (Unit {0}) × Directory S)
      → Progress d r
      → r.0 ≡ done tt
      → Says (suc d.db.generation) r.1.sidecar
  Progress-Says d r (Progress.nothing still unfinished) h =
      absurd (let wrong = unfinished tt h in cc)
  Progress-Says d r (Progress.counter same up unfinished) h =
      absurd (let wrong = unfinished tt h in cc)
  Progress-Says d r (Progress.file p gen put up) h =
      subst (Says (suc d.db.generation)) (sym put) (omega (arith, gen))

  pub parse-Stays : (file : Option StateFile) → Stays {S = S} (parse_state file)
  unfolding parse_state
  parse-Stays none = search still_rules
  parse-Stays (some (written p)) = search still_rules
  parse-Stays (some garbled) = search still_rules

  check-Stays : (prev : Option DataDirState) (g : ℕ) → Stays {S = S} (check_generation prev g)
  check-Stays none g = search still_rules
  check-Stays (some p) g = search still_rules depth 9

  pub verify-Stays : Stays {S = S} verify_data_directory
  unfolding verify_data_directory read_data_dir_state data_generation
  verify-Stays = search (still_rules, parse-Stays, check-Stays) depth 12

  Later-bind :
      (m n : Boot S (Unit {0}))
      → ((d : Directory S) → IsLater d (m d).1)
      → ((d : Directory S) → IsLater d (n d).1)
      → (d : Directory S) → IsLater d ((m >>= λ _. n) d).1
  Later-bind m n h k d = elim (bind_cases m (λ _. n) d) [
    | inl (x, run) ↦ subst (λ r. IsLater d r.1) (sym run) (h d)
    | inr (u, ran, run) ↦
        subst (λ r. IsLater d r.1) (sym run)
          (IsLater-chain d (m d).1 (n (m d).1).1 (h d) (k (m d).1))
  ]

  -- A sequence without an error has run both parts.
  bind_done :
      (m n : Boot S (Unit {0})) (d : Directory S)
      → ((m >>= λ _. n) d).0 ≡ done tt
      → (m >>= λ _. n) d ≡ n (m d).1
  bind_done m n d h = elim (bind_cases m (λ _. n) d) [
    | inl (x, run) ↦ absurd (let wrong : stopped x ≡ done tt = sym (ap (λ r. r.0) run) ∙ h in cc)
    | inr (u, ran, run) ↦ run
  ]

  module _ (sql : Sql S) where
    abbrev upgraded : List Entry → Boot S (Unit {0})
    upgraded entries = do run_migrations sql entries; record_data_directory_state

    migrations-Later :
        (entries : List Entry) (d : Directory S) → IsLater d (run_migrations sql entries d).1
    migrations-Later entries d = IsStill-IsLater d _ ((run_migrations-Stays sql entries).at d)

    record-Later : (d : Directory S) → IsLater d (record_data_directory_state d).1
    record-Later d = Progress-Later d (record_data_directory_state d) (record-Progress d)

    pub start-Later :
        (entries : List Entry) (d : Directory S) → IsLater d (start_database sql entries d).1
    unfolding start_database
    start-Later entries =
        Later-bind verify_data_directory (upgraded entries)
          (λ d. IsStill-IsLater d _ (verify-Stays.at d))
          (Later-bind (run_migrations sql entries) record_data_directory_state
            (migrations-Later entries) record-Later)

    -- A start without an error has put a new counter into the file.
    pub start-Says :
        (entries : List Entry) (d : Directory S)
        → (start_database sql entries d).0 ≡ done tt
        → Says (suc d.db.generation) (start_database sql entries d).1.sidecar
    unfolding start_database
    start-Says entries d h =
        let first = bind_done verify_data_directory (upgraded entries) d h in
        let e : Directory S = (verify_data_directory d).1 in
        let second =
          bind_done (run_migrations sql entries) record_data_directory_state e
            (sym (ap (λ r. r.0) first) ∙ h) in
        let f : Directory S = (run_migrations sql entries e).1 in
        let done' : (record_data_directory_state f).0 ≡ done tt =
          sym (ap (λ r. r.0) (first ∙ second)) ∙ h in
        let same : f.db.generation ≡ d.db.generation =
          ((run_migrations-Stays sql entries).at e).generation ∙ (verify-Stays.at d).generation in
        subst (λ r. Says (suc d.db.generation) r.1.sidecar) (sym (first ∙ second))
          (subst (λ g. Says (suc g) (record_data_directory_state f).1.sidecar) same
            (Progress-Says f (record_data_directory_state f) (record-Progress f) done'))

    pub Runs-Later : (d e : Directory S) → Runs sql d e → IsLater d e
    Runs-Later d e begin = IsStill-IsLater d d (IsStill-refl d)
    Runs-Later d e (boot {e = f} r entries steps) = IsLater-chain d f e (Runs-Later d f r) (
        IsLater-chain f (power_on steps f) e
          (IsStill-IsLater f _ record { sidecar = refl; generation = refl })
          (start-Later entries (power_on steps f)))
    Runs-Later d e (write {e = f} r t) =
        IsLater-chain d f e (Runs-Later d f r)
          (IsStill-IsLater f _ record { sidecar = refl; generation = refl })
