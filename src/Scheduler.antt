-- ===== src/Scheduler.antt =====
-- internal/scheduler/scheduler.go: the loop that fires overdue events. The business logic that lives
-- in the server package comes in through the interface `Actions`, as it does in the source.
pub mod Skip
pub mod Fire
pub mod Daily
use piecesoflife.Prelude.{
  ℕ, ◌+◌, ◌*◌, ◌/◌, Bool, true, false, not, ◌&&◌, Option, none, some, List, [], ◌∷◌, ltb, leb,
  if◌then◌else◌,
}
use piecesoflife.Store.Rows.{
  Issue, Group, SchedulerEvent, EventType, reminder_1, reminder_2, admin_summary, auto_close,
  create_next_issue, token_cleanup, session_cleanup, comment_digest, unknown, is_draft,
  is_collecting, is_reminder,
}
use piecesoflife.Store.Exec.{
  Result, ok, err, Exec, invalid_event, pure, raise, attempt, get_now, is_cancelled, ◌>>=◌, ◌>>◌,
}
use piecesoflife.Store.Events.{
  get_overdue_events, is_event_pending, mark_event_fired, ensure_daily_event,
}
use piecesoflife.Store.Issues.{get_issue_by_id}
use piecesoflife.Store.Groups.{get_group}
use piecesoflife.Store.Auth.{cleanup_expired_tokens, cleanup_expired_sessions}

pub record Actions : Type 0 where
  pub send_reminder_for_issue : ℕ → Bool → Option ℕ → Exec (Unit {0})
  pub send_admin_summary_for_issue : ℕ → Option ℕ → Exec (Unit {0})
  pub auto_publish_issue : ℕ → Exec (Unit {0})
  pub create_next_issue : ℕ → ℕ → Exec (Unit {0})
  pub reconcile_auto_create : Exec (Unit {0})
  pub send_comment_digests : Exec (Unit {0})
  pub check_upload_integrity : Exec (Unit {0})

-- 48 hours, in seconds
abbrev pub stale_event_ceiling : ℕ
stale_event_ceiling = 172800

-- An action whose error is only logged.
unfoldable pub logged {ℓ} : {A : Type ℓ} → Exec A → Exec (Unit {0})
logged m = do r ← attempt m; pure tt

-- Why an event is skipped.
pub data SkipReason : Type 0 where
  not_draft not_collecting deadline_passed beyond_ceiling : SkipReason

-- The first `switch`: is the type revalidated at all, and does the ceiling apply?
abbrev pub is_revalidated : EventType → Bool
is_revalidated reminder_1 = true
is_revalidated reminder_2 = true
is_revalidated auto_close = true
is_revalidated admin_summary = true
is_revalidated create_next_issue = true
is_revalidated _ = false

abbrev pub applies_ceiling : EventType → Bool
applies_ceiling auto_close = true
applies_ceiling admin_summary = true
applies_ceiling _ = false

-- The second `switch`: the issue's state against the event.
unfoldable pub overtaken : EventType → Issue → ℕ → Option SkipReason
overtaken create_next_issue iss now = if is_draft iss.status then none else some not_draft
overtaken event_type iss now =
    if not (is_collecting iss.status)
    then some not_collecting
    else if is_reminder event_type && ltb iss.deadline now
    then some deadline_passed
    else none

unfoldable pub past_ceiling : SchedulerEvent → ℕ → Option SkipReason
past_ceiling ev now =
    if applies_ceiling ev.event_type && ltb (ev.scheduled_at + stale_event_ceiling) now
    then some beyond_ceiling
    else none

-- What follows the lookup of the event's issue: a failed lookup never skips.
unfoldable pub skip_by_issue : SchedulerEvent → ℕ → Result Issue → Option SkipReason
skip_by_issue ev now (err e) = none
skip_by_issue ev now (ok iss) = elim (overtaken ev.event_type iss now) [
  | some reason ↦ some reason
  | none ↦ past_ceiling ev now
]

unfoldable pub skip_with_issue : SchedulerEvent → Option ℕ → ℕ → Exec (Option SkipReason)
skip_with_issue ev none now = pure (past_ceiling ev now)
skip_with_issue ev (some issue_id) now = do
  found ← attempt (get_issue_by_id issue_id)
  pure (skip_by_issue ev now found)

unfoldable pub should_skip_event : SchedulerEvent → Exec (Option SkipReason)
should_skip_event ev = do
  now ← get_now
  if is_revalidated ev.event_type then skip_with_issue ev ev.issue_id now else pure none

abbrev pub is_off : Result Group → Bool
is_off (err e) = false
is_off (ok g) = not g.is_active

unfoldable pub is_issue_archived : Result Issue → Exec Bool
is_issue_archived (err e) = pure false
is_issue_archived (ok iss) = do owner ← attempt (get_group iss.group_id); pure (is_off owner)

-- Does the event belong to an archived Loop? Failed lookups read as no.
unfoldable pub is_archived : Option ℕ → Exec Bool
is_archived none = pure false
is_archived (some issue_id) = do found ← attempt (get_issue_by_id issue_id); is_issue_archived found

-- More than five minutes late, at startup.
abbrev pub is_late : Bool → ℕ → SchedulerEvent → Bool
is_late startup now ev = startup && ltb (ev.scheduled_at + 300) now

unfoldable pub ensure_all : ℕ → List EventType → Exec (Unit {0})
ensure_all midnight [] = pure tt
ensure_all midnight (t ∷ ts) = do logged (ensure_daily_event t midnight); ensure_all midnight ts

-- The next UTC midnight.
abbrev pub next_midnight : ℕ → ℕ
next_midnight now = (now / 86400 + 1) * 86400

unfoldable pub schedule_daily_cleanup : Exec (Unit {0})
schedule_daily_cleanup = do
  now ← get_now
  ensure_all (next_midnight now) (token_cleanup ∷ session_cleanup ∷ comment_digest ∷ [])

module _ (actions : Actions) where
  open actions use {
    send_reminder_for_issue, send_admin_summary_for_issue, auto_publish_issue,
    create_next_issue as open_next_issue, reconcile_auto_create, send_comment_digests,
    check_upload_integrity,
  }

  -- The handlers' `switch`, by the type and the issue of the event.
  unfoldable pub run_handler : SchedulerEvent → EventType → Option ℕ → Exec (Unit {0})
  run_handler ev reminder_1 (some issue_id) = send_reminder_for_issue issue_id false (some ev.id)
  run_handler ev reminder_2 (some issue_id) = send_reminder_for_issue issue_id true (some ev.id)
  run_handler ev admin_summary (some issue_id) = send_admin_summary_for_issue issue_id (some ev.id)
  run_handler ev auto_close (some issue_id) = auto_publish_issue issue_id
  run_handler ev create_next_issue (some issue_id) = do
    iss ← get_issue_by_id issue_id
    open_next_issue iss.group_id ev.scheduled_at
  run_handler ev token_cleanup issue_id = do n ← cleanup_expired_tokens; pure tt
  run_handler ev session_cleanup issue_id = do n ← cleanup_expired_sessions; pure tt
  run_handler ev comment_digest issue_id = send_comment_digests
  run_handler ev _ _ = raise invalid_event

  -- After the handler: marked fired only if it succeeded.
  unfoldable pub finish_event : SchedulerEvent → Bool → Result (Unit {0}) → Exec (Unit {0})
  finish_event ev was_late (err e) = pure tt
  finish_event ev was_late (ok u) = logged (mark_event_fired ev.id was_late)

  unfoldable pub handle_event : SchedulerEvent → Bool → Exec (Unit {0})
  handle_event ev was_late = do
    r ← attempt (run_handler ev ev.event_type ev.issue_id)
    finish_event ev was_late r

  unfoldable pub act_on : SchedulerEvent → Bool → Exec (Unit {0})
  act_on ev was_late = do
    archived ← is_archived ev.issue_id
    if archived then logged (mark_event_fired ev.id was_late) else do
      skip ← should_skip_event ev
      elim skip [
        | some reason ↦ logged (mark_event_fired ev.id true)
        | none ↦ handle_event ev was_late
      ]

  -- What the write side says of the event decides whether it is acted on.
  unfoldable pub on_pending : SchedulerEvent → Bool → Result Bool → Exec (Unit {0})
  on_pending ev was_late (err e) = pure tt
  on_pending ev was_late (ok false) = pure tt
  on_pending ev was_late (ok true) = act_on ev was_late

  unfoldable pub fire_event : SchedulerEvent → Bool → Exec (Unit {0})
  fire_event ev was_late = do
    pending ← attempt (is_event_pending ev.id)
    on_pending ev was_late pending

  -- The loop over the overdue events; false if the context was cancelled.
  unfoldable pub fire_all : Bool → List SchedulerEvent → Exec Bool
  fire_all startup [] = pure true
  fire_all startup (ev ∷ evs) = do
    stop ← is_cancelled
    elim stop [
      | true ↦ pure false
      | false ↦ do now ← get_now; fire_event ev (is_late startup now ev); fire_all startup evs
    ]

  unfoldable pub fire_found : Bool → Result (List SchedulerEvent) → Exec (Unit {0})
  fire_found startup (err e) = pure tt
  fire_found startup (ok evs) = do
    finished ← fire_all startup evs
    if finished && not startup then schedule_daily_cleanup else pure tt

  unfoldable pub fire_overdue_events : Bool → Exec (Unit {0})
  fire_overdue_events startup = do found ← attempt get_overdue_events; fire_found startup found

  -- The part of `Start` before the ticker.
  unfoldable pub start_up : Exec (Unit {0})
  start_up = do
    fire_overdue_events true
    logged reconcile_auto_create
    schedule_daily_cleanup
    logged check_upload_integrity

  unfoldable pub reconcile_now : ℕ → Exec ℕ
  reconcile_now now = do logged reconcile_auto_create; logged check_upload_integrity; pure now

  -- The daily reconciliation, where a day has passed since the last.
  unfoldable pub reconcile_daily : ℕ → ℕ → Exec ℕ
  reconcile_daily last_reconcile now =
      if leb (last_reconcile + 86400) now then reconcile_now now else pure last_reconcile

  -- One tick, given when the daily reconciliation last ran; it returns when it then last ran. (The
  -- truncation of the write-ahead log changes no table.)
  unfoldable pub on_tick : ℕ → Exec ℕ
  on_tick last_reconcile = do
    fire_overdue_events false
    now ← get_now
    reconcile_daily last_reconcile now
