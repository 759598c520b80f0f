-- ===== src/Boot/History/Marks.antt =====
-- How a boot moves the counter in the database and the one in the file beside it.
use piecesoflife.Prelude.{
  ℕ, suc, ◌≤◌, ◌≡◌, refl, sym, subst, ◌∙◌, ◌⊎◌, inl, inr, true, false, Option, none, some, arith,
  Bool-cases,
}
use piecesoflife.Boot.State.{
  Directory, Boot, BootErr, DataDirState, StateFile, written, garbled, Outcome, done, stopped, Step,
  works, fails, dies, next_step, stepped, tried, change, or_clean, cleaned, is_crash, after, ◌>>=◌,
}
use piecesoflife.Boot.Generation.{one_temp_less, install, fill_and_install, write_state_file}
use piecesoflife.Boot.History.Still.{IsStill, Stays, Stays-change, still_rules}

-- The file does not say more than the database does.
abbrev pub Agrees : Option StateFile → ℕ → Type 0
Agrees none g = Unit
Agrees (some (written s)) g = s.generation ≤ g
Agrees (some garbled) g = true ≡ false

-- The file says at least `m`.
abbrev pub Says : ℕ → Option StateFile → Type 0
Says m none = true ≡ false
Says m (some (written s)) = m ≤ s.generation
Says m (some garbled) = true ≡ false

module _ {S : Type 0} where
  abbrev pub IsCurrent : Directory S → Type 0
  IsCurrent d = Agrees d.sidecar d.db.generation

  pub record IsLater (d e : Directory S) : Type 0 where
    pub current : IsCurrent d → IsCurrent e
    pub says : IsCurrent d → (m : ℕ) → Says m d.sidecar → Says m e.sidecar
    pub grows : d.db.generation ≤ e.db.generation

  pub IsLater-chain : (d e f : Directory S) → IsLater d e → IsLater e f → IsLater d f
  IsLater-chain d e f h k = record {
    current = λ c. k.current (h.current c);
    says = λ c m s. k.says (h.current c) m (h.says c m s);
    grows = omega (arith, h.grows, k.grows);
  }

  pub IsStill-IsLater : (d e : Directory S) → IsStill d e → IsLater d e
  IsStill-IsLater d e h = record {
    current = λ c.
        subst (λ g. Agrees e.sidecar g) (sym h.generation)
          (subst (λ s. Agrees s d.db.generation) (sym h.sidecar) c);
    says = λ c m s. subst (Says m) (sym h.sidecar) s;
    grows = omega (arith, h.generation);
  }

  module _ {ℓ κ} {A : Type ℓ} {B : Type κ} where
    after_cases :
        (r : Outcome A) (f : A → Boot S B) (d : Directory S)
        → ((x : BootErr) × (after r f d ≡ (stopped x, d)))
          ⊎ ((a : A) × (r ≡ done a) × (after r f d ≡ f a d))
    after_cases (done a) f d = inr (a, refl, refl)
    after_cases (stopped x) f d = inl (x, refl)

    -- Either the first part stopped, or the rest went on from it.
    pub bind_cases :
        (m : Boot S A) (f : A → Boot S B) (d : Directory S)
        → ((x : BootErr) × ((m >>= f) d ≡ (stopped x, (m d).1)))
          ⊎ ((a : A) × ((m d).0 ≡ done a) × ((m >>= f) d ≡ f a (m d).1))
    unfolding ◌>>=◌
    bind_cases m f d = after_cases (m d).0 f (m d).1

  -- What a rename does, or a part of the writing before it.
  abbrev pub Installed : DataDirState → Directory S → Outcome (Unit {0}) × Directory S → Type 0
  Installed p d r =
      (r.1.db.generation ≡ d.db.generation)
      × ((r.1.sidecar ≡ some (written p))
          ⊎ ((r.1.sidecar ≡ d.sidecar) × ((u : Unit {0}) → r.0 ≡ done u → true ≡ false)))

  tried-install :
      (p : DataDirState) (d : Directory S) (s : Step)
      → Installed p d (tried s tt (install p (stepped d)) (stepped d))
  tried-install p d works = (refl, inl refl)
  tried-install p d fails = (refl, inr (refl, λ u h. cc))
  tried-install p d dies = (refl, inr (refl, λ u h. cc))

  install_step : (p : DataDirState) (d : Directory S) → Installed p d (change (install p) d)
  unfolding change
  install_step p d = tried-install p d (next_step d.steps)

  moved_alternative :
      (p : DataDirState) (d e f : Directory S) (r : Outcome (Unit {0}))
      → IsStill d e
      → Installed p e (r, f)
      → Installed p d (r, f)
  moved_alternative p d e f r h (g, inl put) = (g ∙ h.generation, inl put)
  moved_alternative p d e f r h (g, inr (same, unfinished)) =
      (g ∙ h.generation, inr (same ∙ h.sidecar, unfinished))

  Installed-bind :
      (p : DataDirState) (m : Boot S (Unit {0})) (n : Boot S (Unit {0})) (d : Directory S)
      → Stays m
      → ((e : Directory S) → Installed p e (n e))
      → Installed p d ((m >>= λ _. n) d)
  Installed-bind p m n d h k = elim (bind_cases m (λ _. n) d) [
    | inl (x, run) ↦
        subst (Installed p d) (sym run) ((h.at d).generation, inr ((h.at d).sidecar, λ u h. cc))
    | inr (u, ran, run) ↦
        subst (Installed p d) (sym run)
          (moved_alternative p d (m d).1 (n (m d).1).1 (n (m d).1).0 (h.at d) (k (m d).1))
  ]

  touch-Stays : Stays {S = S} (change (λ d. d))
  touch-Stays = search still_rules depth 9

  fill_and_install-Installed :
      (p : DataDirState) (d : Directory S) → Installed p d (fill_and_install p d)
  unfolding fill_and_install
  fill_and_install-Installed p d =
      let touch : Boot S (Unit {0}) = change (λ d. d) in
      let one = λ (e : Directory S).
        Installed-bind p touch (change (install p)) e touch-Stays (install_step p) in
      let two = λ (e : Directory S). Installed-bind p touch _ e touch-Stays one in
      let three = λ (e : Directory S). Installed-bind p touch _ e touch-Stays two in
      Installed-bind p touch _ d touch-Stays three

  cleaned_install :
      (p : DataDirState) (d : Directory S) (r : Outcome (Unit {0})) (e : Directory S)
      → Installed p d (r, e)
      → Installed p d (cleaned one_temp_less r e)
  cleaned_install p d (done u) e h = h
  cleaned_install p d (stopped x) e (g, h) = elim (Bool-cases (is_crash x)) [
    | inl gone ↦ rw gone (g, h)
    | inr alive ↦
        rw alive (g, elim h [ inl put ↦ inl put | inr (same, unfinished) ↦ inr (same, λ u k. cc) ])
  ]

  pub write_state_file-Installed :
      (p : DataDirState) (d : Directory S) → Installed p d (write_state_file p d)
  unfolding write_state_file or_clean
  write_state_file-Installed p d =
      Installed-bind p (change (λ e. record e { temps = suc e.temps }))
        (or_clean (fill_and_install p) one_temp_less) d
        (Stays-change _ (λ e. record { sidecar = refl; generation = refl }))
        (λ e.
          cleaned_install p e (fill_and_install p e).0 (fill_and_install p e).1
            (fill_and_install-Installed p e))
