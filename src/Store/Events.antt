-- ===== src/Store/Events.antt =====
-- internal/store/scheduler.go: the scheduler_events table, but for ApplySchedule and the labels.
pub mod Overdue
pub mod Requeue
use piecesoflife.Prelude.{
  ℕ, suc, ◌+◌, ◌-◌, Bool, true, false, not, ◌&&◌, ◌||◌, Option, none, some, List, [], ◌∷◌, ◌==◌,
  leb, if◌then◌else◌, holds_id, is_none, select, update_where, exists_where, count_where,
  first_where, earliest_where, order_by,
}
use piecesoflife.Store.Rows.{
  Db, SchedulerEvent, SchedulerEventSpec, EventType, is_type, is_reminder, is_known_type,
}
use piecesoflife.Store.Exec.{
  Result, ok, err, Exec, Err, check_violation, foreign_key_violation, no_such_event, pure, raise,
  query, query_write, exec, get_now, transaction, ◌>>=◌, ◌>>◌,
}
use piecesoflife.Store.Sql.{
  is_pending, same_key, issue_exists, add_event, insert_event, delete_events, is_pending_of_issue,
  issue_in_group, is_pending_in_group, next_round_event,
}

unfoldable pub create_scheduler_event : Option ℕ → EventType → ℕ → Exec (Unit {0})
create_scheduler_event issue_id event_type scheduled_at = do
  now ← get_now
  exec (insert_event issue_id event_type scheduled_at now)

-- INSERT OR IGNORE: a row that a UNIQUE or CHECK constraint refuses is skipped.
unfoldable pub insert_or_ignore : EventType → ℕ → ℕ → Db → Result (Unit {0} × Db)
insert_or_ignore event_type scheduled_at now db =
    if is_known_type event_type
      && not (exists_where (same_key none event_type scheduled_at) db.events)
    then ok (tt, add_event db none event_type scheduled_at now)
    else ok (tt, db)

unfoldable pub ensure_daily_event : EventType → ℕ → Exec (Unit {0})
ensure_daily_event event_type scheduled_at = do
  now ← get_now
  exec (insert_or_ignore event_type scheduled_at now)

unfoldable pub get_pending_events : Exec (List SchedulerEvent)
get_pending_events =
    query
      (λ db. ok (order_by (λ (ev : SchedulerEvent). ev.scheduled_at) (select is_pending db.events)))

abbrev pub is_overdue : ℕ → SchedulerEvent → Bool
is_overdue now ev = is_pending ev && leb ev.scheduled_at now

unfoldable pub get_overdue_events : Exec (List SchedulerEvent)
get_overdue_events = do
  now ← get_now
  query (λ db.
      ok (order_by (λ (ev : SchedulerEvent). ev.scheduled_at) (select (is_overdue now) db.events)))

unfoldable pub get_next_pending_event_by_type : EventType → Exec (Option SchedulerEvent)
get_next_pending_event_by_type event_type = query (λ db. ok (
    earliest_where (λ ev. is_pending ev && is_type ev.event_type event_type) (λ ev. ev.scheduled_at)
      db.events))

abbrev pub has_id : ℕ → SchedulerEvent → Bool
has_id id ev = ev.id == id

abbrev pub fire : ℕ → Bool → SchedulerEvent → SchedulerEvent
fire now was_late ev = record ev { fired_at = some now; was_late = was_late }

-- UPDATE scheduler_events SET fired_at = CURRENT_TIMESTAMP, was_late = ? WHERE id = ?
unfoldable pub fire_row : ℕ → Bool → ℕ → Db → Result (ℕ × Db)
fire_row id was_late now db = ok (
  count_where (has_id id) db.events,
  record db { events = update_where (has_id id) (fire now was_late) db.events },
)

unfoldable pub mark_event_fired : ℕ → Bool → Exec (Unit {0})
mark_event_fired id was_late = do
  now ← get_now
  n ← exec (fire_row id was_late now)
  if n == 1 then pure tt else raise no_such_event

unfoldable pub is_event_pending : ℕ → Exec Bool
is_event_pending id =
    query_write (λ db. ok (exists_where (λ ev. has_id id ev && is_pending ev) db.events))

unfoldable pub get_next_pending_event_for_group : EventType → ℕ → Exec (Option SchedulerEvent)
get_next_pending_event_for_group event_type group_id = query (λ db.
    ok (
      earliest_where (is_pending_in_group db group_id event_type) (λ ev. ev.scheduled_at)
        db.events))

unfoldable pub get_pending_next_round_event : ℕ → Exec (Option SchedulerEvent)
get_pending_next_round_event group_id = query (λ db. ok (next_round_event group_id db))

-- The narrowing to one type of event; `none` stands for the empty text.
abbrev pub matches_type : Option EventType → SchedulerEvent → Bool
matches_type none ev = true
matches_type (some event_type) ev = is_type ev.event_type event_type

abbrev pub is_pending_of_group : Db → ℕ → Option EventType → SchedulerEvent → Bool
is_pending_of_group db group_id event_type ev =
    is_pending ev && issue_in_group db group_id ev.issue_id && matches_type event_type ev

-- A statement's result with its number of affected rows.
abbrev pub counted : ℕ → Result (Unit {0} × Db) → Result (ℕ × Db)
counted n (ok (u, db)) = ok (n, db)
counted n (err e) = err e

unfoldable pub delete_group_events : ℕ → Option EventType → Db → Result (ℕ × Db)
delete_group_events group_id event_type db =
    counted (count_where (is_pending_of_group db group_id event_type) db.events)
      (delete_events (is_pending_of_group db group_id event_type) db)

unfoldable pub delete_pending_group_events_by_type : ℕ → Option EventType → Exec ℕ
delete_pending_group_events_by_type group_id event_type =
    exec (delete_group_events group_id event_type)

unfoldable pub delete_pending_events_for_group : ℕ → Exec ℕ
delete_pending_events_for_group group_id = delete_pending_group_events_by_type group_id none

-- ON CONFLICT … DO UPDATE SET fired_at = NULL, was_late = 0
abbrev pub rearm : SchedulerEvent → SchedulerEvent
rearm ev = record ev { fired_at = none; was_late = false }

unfoldable pub upsert_event : ℕ → EventType → ℕ → ℕ → Db → Result (Unit {0} × Db)
upsert_event issue_id event_type scheduled_at now db =
    if not (is_known_type event_type)
    then err check_violation
    else if exists_where (same_key (some issue_id) event_type scheduled_at) db.events
    then ok (
      tt,
      record db {
        events = update_where (same_key (some issue_id) event_type scheduled_at) rearm db.events;
      },
    )
    else if issue_exists db (some issue_id)
    then ok (tt, add_event db (some issue_id) event_type scheduled_at now)
    else err foreign_key_violation

-- The loop over the specs.
unfoldable pub upsert_all : ℕ → ℕ → List SchedulerEventSpec → Exec (Unit {0})
upsert_all issue_id now [] = pure tt
upsert_all issue_id now (spec ∷ specs) = do
  exec (upsert_event issue_id spec.event_type spec.scheduled_at now)
  upsert_all issue_id now specs

unfoldable pub requeue_issue_events : ℕ → List SchedulerEventSpec → Exec (Unit {0})
requeue_issue_events issue_id specs = do
  now ← get_now
  transaction
      (do exec (delete_events (is_pending_of_issue issue_id)); upsert_all issue_id now specs)

-- issue_id = ? AND event_type IN ('reminder_1', 'reminder_2') AND fired_at >= datetime('now', '-1 day')
abbrev pub fired_since : ℕ → Option ℕ → Bool
fired_since t none = false
fired_since t (some f) = leb t f

abbrev pub is_recent_reminder : ℕ → ℕ → SchedulerEvent → Bool
is_recent_reminder now issue_id ev =
    holds_id ev.issue_id issue_id
    && is_reminder ev.event_type
    && fired_since (now - 86400) ev.fired_at

unfoldable pub has_recent_fired_reminder : ℕ → Exec Bool
has_recent_fired_reminder issue_id = do
  now ← get_now
  query (λ db. ok (exists_where (is_recent_reminder now issue_id) db.events))
