-- ===== src/Boot/History/Recorded.antt =====
-- What recording the state of a data directory leaves behind, however far it gets.
use piecesoflife.Prelude.{ℕ, suc, ◌≡◌, refl, sym, ap, subst, ◌∙◌, ◌⊎◌, inl, inr, true, false, some}
use piecesoflife.Boot.State.{
  Directory, Boot, DataDirState, written, Outcome, done, Step, works, fails, dies, next_step,
  stepped, tried, look, change, ◌>>=◌,
}
use piecesoflife.Boot.Generation.{
  migration_state, data_generation, version_counts, set_data_generation, with_generation,
  write_state_file, payload_of, record_data_directory_state,
}
use piecesoflife.Boot.History.Still.{IsStill, Stays-look, IsStill-chain}
use piecesoflife.Boot.History.Marks.{bind_cases, Installed, write_state_file-Installed}

module _ {S : Type 0} where
  tried_value {ℓ} :
      {A : Type ℓ} (s : Step) (a b : A) (d e : Directory S) → (tried s a d e).0 ≡ done b → a ≡ b
  tried_value works a b d e h = cc
  tried_value fails a b d e h = cc
  tried_value dies a b d e h = cc

  pub look_value {ℓ} :
      {A : Type ℓ} (f : Directory S → A) (d : Directory S) (a : A) → (look f d).0 ≡ done a → f d ≡ a
  unfolding look
  look_value f d a h = tried_value (next_step d.steps) (f d) a (stepped d) (stepped d) h

  -- The counter is set, or nothing is.
  abbrev Set : ℕ → Directory S → Outcome (Unit {0}) × Directory S → Type 0
  Set g d r =
      ((r.1.sidecar ≡ d.sidecar) × (r.1.db.generation ≡ g))
      ⊎ (IsStill d r.1 × ((u : Unit {0}) → r.0 ≡ done u → true ≡ false))

  tried_set :
      (g : ℕ) (d : Directory S) (s : Step)
      → Set g d (tried s tt (with_generation g (stepped d)) (stepped d))
  tried_set g d works = inl (refl, refl)
  tried_set g d fails = inr (record { sidecar = refl; generation = refl }, λ u h. cc)
  tried_set g d dies = inr (record { sidecar = refl; generation = refl }, λ u h. cc)

  set_step : (g : ℕ) (d : Directory S) → Set g d (set_data_generation g d)
  unfolding set_data_generation change
  set_step g d = tried_set g d (next_step d.steps)

  -- How far the recording got: not to the counter, or to the counter and perhaps the file.
  pub data Progress (d : Directory S) (r : Outcome (Unit {0}) × Directory S) : Type 0 where
    nothing : IsStill d r.1 → ((u : Unit {0}) → r.0 ≡ done u → true ≡ false) → Progress d r
    counter :
        r.1.sidecar ≡ d.sidecar
        → r.1.db.generation ≡ suc d.db.generation
        → ((u : Unit {0}) → r.0 ≡ done u → true ≡ false)
        → Progress d r
    file :
        (p : DataDirState)
        → p.generation ≡ suc d.db.generation
        → r.1.sidecar ≡ some (written p)
        → r.1.db.generation ≡ suc d.db.generation
        → Progress d r

  written_Progress :
      (d e : Directory S) (p : DataDirState) (r : Outcome (Unit {0}) × Directory S)
      → e.sidecar ≡ d.sidecar
      → e.db.generation ≡ suc d.db.generation
      → p.generation ≡ suc d.db.generation
      → Installed p e r
      → Progress d r
  written_Progress d e p r same up gen (g, inl put) = Progress.file p gen put (g ∙ up)
  written_Progress d e p r same up gen (g, inr (kept, unfinished)) =
      Progress.counter (kept ∙ same) (g ∙ up) unfinished

  count_Progress :
      (d e : Directory S) (g : ℕ) (counts : ℕ × ℕ)
      → IsStill d e
      → g ≡ d.db.generation
      → Progress d
          ((set_data_generation (suc g) >>= λ _. write_state_file (payload_of (suc g) counts)) e)
  count_Progress d e g counts h at =
      elim (bind_cases (set_data_generation (suc g))
        (λ _. write_state_file (payload_of (suc g) counts)) e) [
          | inl (x, run) ↦ subst (Progress d) (sym run) (elim (set_step (suc g) e) [
            | inl (same, up) ↦ Progress.counter (same ∙ h.sidecar) (up ∙ ap suc at) (λ u k. cc)
            | inr (still, unfinished) ↦ Progress.nothing (IsStill-chain d e _ h still) (λ u k. cc)
          ])
          | inr (u, ran, run) ↦ subst (Progress d) (sym run) (elim (set_step (suc g) e) [
            | inl (same, up) ↦
                written_Progress d (set_data_generation (suc g) e).1 (payload_of (suc g) counts) _
                  (same ∙ h.sidecar) (up ∙ ap suc at) (ap suc at)
                  (write_state_file-Installed (payload_of (suc g) counts) _)
            | inr (still, unfinished) ↦ absurd (let wrong = unfinished u ran in cc)
          ])
        ]

  pub record-Progress : (d : Directory S) → Progress d (record_data_directory_state d)
  unfolding record_data_directory_state migration_state data_generation
  record-Progress d = elim (bind_cases counts (λ n. generation >>= λ g. finish g n) d) [
    | inl (x, run) ↦
        subst (Progress d) (sym run) (Progress.nothing ((Stays-look _).at d) (λ u k. cc))
    | inr (n, counted, run) ↦ elim (bind_cases generation (λ g. finish g n) (counts d).1) [
      | inl (x, run') ↦ subst (Progress d) (sym (run ∙ run')) (Progress.nothing looked (λ u k. cc))
      | inr (g, read, run') ↦ subst (Progress d) (sym (run ∙ run')) (
          count_Progress d (generation (counts d).1).1 g n looked
            (sym (look_value _ (counts d).1 g read) ∙ ((Stays-look _).at d).generation))
    ]
  ]
    where
      counts : Boot S (ℕ × ℕ)
      counts = look (λ e. version_counts e.db.versions)

      generation : Boot S ℕ
      generation = look (λ e. e.db.generation)

      finish : ℕ → ℕ × ℕ → Boot S (Unit {0})
      finish g n = set_data_generation (suc g) >>= λ _. write_state_file (payload_of (suc g) n)

      looked : IsStill d (generation (counts d).1).1
      looked =
          IsStill-chain d (counts d).1 (generation (counts d).1).1
            ((Stays-look (λ (e : Directory S). version_counts e.db.versions)).at d)
            ((Stays-look (λ (e : Directory S). e.db.generation)).at (counts d).1)
