-- ===== src/Scheduler/Skip.antt =====
-- shouldSkipEvent against an independent statement of when an event is stale.
use piecesoflife.Prelude.{
  ℕ, ◌+◌, ◌<◌, ◌≡◌, ◌≢◌, ◌⊎◌, inl, inr, false, Option, none, some, arith, ◌↔◌, Option-cases,
  if◌then◌else◌, first_where,
}
use piecesoflife.Store.Rows.{
  Issue, SchedulerEvent, EventType, draft, collecting, reminder_1, reminder_2, admin_summary,
  auto_close, create_next_issue,
}
use piecesoflife.Store.Exec.{
  ok, World, view, calm, next_fault, query, attempt, get_now, pure, ◌>>=◌,
}
use piecesoflife.Store.Issues.{is_issue, get_issue_by_id}
use piecesoflife.Scheduler.{
  SkipReason, is_revalidated, overtaken, past_ceiling, skip_by_issue, skip_with_issue,
  should_skip_event,
}

-- The types that belong to a round that is collecting.
abbrev pub IsRoundEvent : EventType → Type 0
IsRoundEvent t = (t ≡ reminder_1) ⊎ (t ≡ reminder_2) ⊎ (t ≡ auto_close) ⊎ (t ≡ admin_summary)

-- A round that no longer collects answers.
abbrev pub IsRoundOver : SchedulerEvent → Issue → Type 0
IsRoundOver ev iss = IsRoundEvent ev.event_type × (iss.status ≢ collecting)

-- An opening of a round that is open already.
abbrev pub IsAlreadyOpen : SchedulerEvent → Issue → Type 0
IsAlreadyOpen ev iss = (ev.event_type ≡ create_next_issue) × (iss.status ≢ draft)

-- A reminder after the deadline.
abbrev pub IsAnsweringOver : SchedulerEvent → Issue → ℕ → Type 0
IsAnsweringOver ev iss now =
    ((ev.event_type ≡ reminder_1) ⊎ (ev.event_type ≡ reminder_2)) × (iss.deadline < now)

-- A closing or a summary that is more than two days late.
abbrev pub IsTwoDaysLate : SchedulerEvent → ℕ → Type 0
IsTwoDaysLate ev now =
    ((ev.event_type ≡ auto_close) ⊎ (ev.event_type ≡ admin_summary))
    × (ev.scheduled_at + 172800 < now)

-- When an event of a known round is overtaken by reality.
abbrev pub IsStale : SchedulerEvent → Issue → ℕ → Type 0
IsStale ev iss now =
    IsRoundOver ev iss ⊎ IsAlreadyOpen ev iss ⊎ IsAnsweringOver ev iss now ⊎ IsTwoDaysLate ev now

-- The decision on an event whose round is found.
abbrev pub decision : SchedulerEvent → Issue → ℕ → Option SkipReason
decision ev iss now = if is_revalidated ev.event_type then skip_by_issue ev now (ok iss) else none

IsStale-decision :
    (ev : SchedulerEvent) (iss : Issue) (now : ℕ) → decision ev iss now ≢ none → IsStale ev iss now
unfolding skip_by_issue overtaken past_ceiling
IsStale-decision ev iss now h = ground arith

pub decision-IsStale :
    (ev : SchedulerEvent) (iss : Issue) (now : ℕ) → IsStale ev iss now → decision ev iss now ≢ none
unfolding skip_by_issue overtaken past_ceiling
decision-IsStale ev iss now h = ground arith

pub fresh_decision :
    (ev : SchedulerEvent) (iss : Issue) (now : ℕ)
    → ¬ IsStale ev iss now
    → decision ev iss now ≡ none
fresh_decision ev iss now fresh = elim (Option-cases (decision ev iss now)) [
  | inl e ↦ e
  | inr (r, e) ↦ absurd (fresh (IsStale-decision ev iss now (λ n. cc)))
]

-- An event is stale or it is not.
pub IsStale-cases :
    (ev : SchedulerEvent) (iss : Issue) (now : ℕ) → IsStale ev iss now ⊎ ¬ IsStale ev iss now
IsStale-cases ev iss now = elim (Option-cases (decision ev iss now)) [
  | inl e ↦ inr (λ stale. decision-IsStale ev iss now stale e)
  | inr (r, e) ↦ inl (IsStale-decision ev iss now (λ n. cc))
]

should_skip-decision :
    (ev : SchedulerEvent) (k : ℕ) (iss : Issue) (w : World)
    → ev.issue_id ≡ some k
    → next_fault w.faults ≡ false
    → first_where (is_issue k) (view w).issues ≡ some iss
    → (should_skip_event ev w).0 ≡ ok (decision ev iss w.now)
unfolding should_skip_event skip_with_issue get_issue_by_id query attempt get_now pure ◌>>=◌
should_skip-decision ev k iss w has good found = ground arith

pub should_skip-calm :
    (ev : SchedulerEvent) (k : ℕ) (iss : Issue) (w : World)
    → ev.issue_id ≡ some k
    → first_where (is_issue k) (view w).issues ≡ some iss
    → should_skip_event ev (calm w) ≡ (ok (decision ev iss w.now), calm w)
unfolding should_skip_event skip_with_issue get_issue_by_id query attempt get_now pure ◌>>=◌
should_skip-calm ev k iss w has found = ground arith

-- If the lookup of the event's round succeeds, the event is skipped exactly when it is stale: its
-- round is over, or open already, or a reminder's deadline has passed, or a closing or summary is more
-- than 48 hours late.
pub should_skip-iff-IsStale :
    (ev : SchedulerEvent) (k : ℕ) (iss : Issue) (w : World)
    → ev.issue_id ≡ some k
    → next_fault w.faults ≡ false
    → first_where (is_issue k) (view w).issues ≡ some iss
    → (r : Option SkipReason) × ((should_skip_event ev w).0 ≡ ok r)
      × ((r ≢ none) ↔ IsStale ev iss w.now)
should_skip-iff-IsStale ev k iss w has good found = (
  decision ev iss w.now,
  should_skip-decision ev k iss w has good found,
  (IsStale-decision ev iss w.now, decision-IsStale ev iss w.now),
)
