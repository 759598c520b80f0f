-- ===== src/Boot/History/Counters.antt =====
-- The data directory as two counters, which is all that the guard is about: the database's, and the
-- one in the file beside it.
use piecesoflife.Prelude.{
  ℕ, suc, ◌≡◌, sym, ap, refl, subst, ◌∙◌, Bool, true, false, Option, none, some, List, leb, arith,
  inl, inr,
}
use piecesoflife.Boot.State.{
  Sql, Directory, DataDirState, StateFile, written, garbled, Boot, BootErr, Outcome, done, stopped,
  look, pure, raise, ◌>>=◌,
}
use piecesoflife.Boot.Migrations.{Entry, run_migrations}
use piecesoflife.Boot.Generation.{
  parse_state, read_data_dir_state, data_generation, check_generation, verify_data_directory,
  record_data_directory_state,
}
use piecesoflife.Boot.{start_database}
use piecesoflife.Boot.History.Still.{IsStill, Stays, still_rules, run_migrations-Stays}
use piecesoflife.Boot.History.Marks.{bind_cases}
use piecesoflife.Boot.History.Recorded.{Progress, record-Progress, look_value}
use piecesoflife.Boot.History.Mono.{verify-Stays, parse-Stays}

pub data Mark : Type 0 where
  unmarked unreadable : Mark
  marked : ℕ → Mark

pub record Counters : Type 0 where
  pub generation : ℕ
  pub mark : Mark

abbrev pub mark_of : Option StateFile → Mark
mark_of none = unmarked
mark_of (some (written p)) = marked p.generation
mark_of (some garbled) = unreadable

-- The guard of the two counters.
abbrev pub is_admissible : Counters → Bool
is_admissible c = elim c.mark [
  | unmarked ↦ true
  | unreadable ↦ false
  | marked m ↦ leb m c.generation
]

abbrev pub advanced : Counters → Counters
advanced c = record c { generation = suc c.generation }

abbrev pub synced : Counters → Counters
synced c = record { generation = suc c.generation; mark = marked (suc c.generation) }

same_counters : (b c : Counters) → b.generation ≡ c.generation → b.mark ≡ c.mark → b ≡ c
same_counters b c h k = λ i. record { generation = h i; mark = k i }

-- What a start may do to the counters, and with which outcomes.
pub data CounterStep (c : Counters) : Outcome (Unit {0}) → Counters → Type 0 where
  stay : (x : BootErr) → CounterStep c (stopped x) c
  advance : is_admissible c ≡ true → (x : BootErr) → CounterStep c (stopped x) (advanced c)
  sync : is_admissible c ≡ true → (o : Outcome (Unit {0})) → CounterStep c o (synced c)

module _ {S : Type 0} where
  abbrev pub counters : Directory S → Counters
  counters d = record { generation = d.db.generation; mark = mark_of d.sidecar }

  IsStill-counters : (d e : Directory S) → IsStill d e → counters e ≡ counters d
  IsStill-counters d e h = same_counters _ _ h.generation (ap mark_of h.sidecar)

  abbrev IsStep : Directory S → Outcome (Unit {0}) × Directory S → Type 0
  IsStep d r = CounterStep (counters d) r.0 (counters r.1)

  -- An action without an error has got a value from its first part.
  bind_value {ℓ} :
      {A B : Type ℓ} (m : Boot S A) (f : A → Boot S B) (d : Directory S) (b : B)
      → ((m >>= f) d).0 ≡ done b
      → (a : A) × ((m d).0 ≡ done a) × ((f a (m d).1).0 ≡ done b)
  bind_value m f d b h = elim (bind_cases m f d) [
    | inl (x, run) ↦ absurd (let wrong : stopped x ≡ done b = sym (ap (λ r. r.0) run) ∙ h in cc)
    | inr (a, ran, run) ↦ (a, ran, sym (ap (λ r. r.0) run) ∙ h)
  ]

  check_admits :
      (file : Option StateFile) (prev : Option DataDirState) (g : ℕ) (d e : Directory S)
      → (parse_state file d).0 ≡ done prev
      → (check_generation prev g e).0 ≡ done tt
      → is_admissible record { generation = g; mark = mark_of file } ≡ true
  unfolding parse_state pure raise
  check_admits none prev g d e h k = refl
  check_admits (some (written p)) prev g d e h k = ground arith
  check_admits (some garbled) prev g d e h k = ground arith

  read-Stays : Stays {S = S} read_data_dir_state
  unfolding read_data_dir_state
  read-Stays = search (still_rules, parse-Stays)

  verify_admits :
      (d : Directory S) → (verify_data_directory d).0 ≡ done tt → is_admissible (counters d) ≡ true
  unfolding verify_data_directory read_data_dir_state data_generation
  verify_admits d h =
      let (prev, was_read, rest) = bind_value read_data_dir_state _ d tt h in
      let (file, saw, parsed) = bind_value (look (λ e. e.sidecar)) parse_state d prev was_read in
      let (g, counted, passed) = bind_value (look (λ e. e.db.generation)) _ _ tt rest in
      let same : g ≡ d.db.generation =
        sym (look_value _ _ g counted) ∙ (read-Stays.at d).generation in
      subst (λ c. is_admissible c ≡ true)
        (same_counters _ _ same (sym (ap mark_of (look_value _ d file saw))))
        (check_admits file prev g _ _ parsed passed)

  stay-IsStep :
      (d e : Directory S) (o : Outcome (Unit {0}))
      → counters e ≡ counters d
      → ((u : Unit {0}) → o ≡ done u → true ≡ false)
      → IsStep d (o, e)
  stay-IsStep d e (done u) same unfinished = absurd (let wrong = unfinished u refl in cc)
  stay-IsStep d e (stopped x) same unfinished =
      subst (CounterStep (counters d) (stopped x)) (sym same) (stay x)

  advance-IsStep :
      (d e : Directory S) (o : Outcome (Unit {0}))
      → is_admissible (counters d) ≡ true
      → counters e ≡ advanced (counters d)
      → ((u : Unit {0}) → o ≡ done u → true ≡ false)
      → IsStep d (o, e)
  advance-IsStep d e (done u) ok same unfinished = absurd (let wrong = unfinished u refl in cc)
  advance-IsStep d e (stopped x) ok same unfinished =
      subst (CounterStep (counters d) (stopped x)) (sym same) (advance ok x)

  Progress-IsStep :
      (d e : Directory S) (r : Outcome (Unit {0}) × Directory S)
      → is_admissible (counters d) ≡ true
      → counters e ≡ counters d
      → Progress e r
      → IsStep d r
  Progress-IsStep d e r ok same (Progress.nothing still unfinished) =
      stay-IsStep d r.1 r.0 (IsStill-counters e r.1 still ∙ same) unfinished
  Progress-IsStep d e r ok same (Progress.counter kept up unfinished) =
      advance-IsStep d r.1 r.0 ok
        (same_counters (counters r.1) (advanced (counters e)) up (ap mark_of kept)
          ∙ ap advanced same)
        unfinished
  Progress-IsStep d e r ok same (Progress.file p gen put up) =
      let whole =
        same_counters (counters r.1) (synced (counters e)) up (ap mark_of put ∙ ap marked gen)
        ∙ ap synced same in
      subst (CounterStep (counters d) r.0) (sym whole) (sync ok r.0)

  -- An action whose first part leaves the counters alone.
  first-IsStep :
      (m : Boot S (Unit {0})) (n : Boot S (Unit {0})) (d e : Directory S)
      → counters e ≡ counters d
      → Stays m
      → ((f : Directory S) → (m e).0 ≡ done tt → counters f ≡ counters d → IsStep d (n f))
      → IsStep d ((m >>= λ _. n) e)
  first-IsStep m n d e same kept rest =
      let still = IsStill-counters e (m e).1 (kept.at e) ∙ same in
      elim (bind_cases m (λ _. n) e) [
        | inl (x, run) ↦
            subst (IsStep d) (sym run) (stay-IsStep d (m e).1 (stopped x) still (λ u k. cc))
        | inr (u, ran, run) ↦ subst (IsStep d) (sym run) (rest (m e).1 ran still)
      ]

  -- Every start of the program, with any scripts, failing or cut off at any step, is a step of the
  -- machine of the two counters. It leaves both alone and stops, or it finds the file not ahead of
  -- the database and sets the database's counter one higher, and the file's to the same unless it
  -- stops; so a start without an error has moved both.
  pub start_database-CounterStep :
      (sql : Sql S) (entries : List Entry) (d : Directory S)
      → CounterStep
          (counters d)
          (start_database sql entries d).0
          (counters (start_database sql entries d).1)
  unfolding start_database
  start_database-CounterStep sql entries d =
      first-IsStep verify_data_directory _ d d refl verify-Stays (λ e passed same.
        first-IsStep (run_migrations sql entries) record_data_directory_state d e same
          (run_migrations-Stays sql entries)
          (λ f ran same'. Progress-IsStep d f _ (verify_admits d passed) same' (record-Progress f)))
