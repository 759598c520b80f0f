-- ===== src/Store/Events/Overdue.antt =====
-- internal/store/scheduler.go, GetOverdueEvents against a description of its result.
use piecesoflife.Prelude.{ℕ, ◌≤◌, ◌≡◌, Bool, ◌&&◌, none, List, [], ◌∷◌, leb, is_none, All}
use piecesoflife.Store.Rows.{SchedulerEvent}

module _ {ℓ} {A : Type ℓ} (key : A → ℕ) where
  -- In ascending order of the key.
  abbrev pub Sorted : List A → Type 0
  Sorted [] = Unit
  Sorted (x ∷ xs) = All (λ y. key x ≤ key y) xs × Sorted xs

-- An unfired event whose time has come, as a test and as a statement.
abbrev pub is_due : ℕ → SchedulerEvent → Bool
is_due now ev = is_none ev.fired_at && leb ev.scheduled_at now

abbrev pub IsDue : ℕ → SchedulerEvent → Type 0
IsDue now ev = (ev.fired_at ≡ none) × (ev.scheduled_at ≤ now)
