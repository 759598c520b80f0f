-- ===== src/Store/Sql.antt =====
-- The SQL statements that several operations of internal/store share, with the constraints that the
-- migrations declare (internal/store/migrations, 016, 019 and 020).
use piecesoflife.Prelude.{
  ℕ, suc, Bool, true, false, not, ◌&&◌, Option, none, some, [], ◌∷◌, ◌++◌, ◌==◌, if◌then◌else◌,
  holds_id, is_none, delete_where, exists_where, earliest_where,
}
use piecesoflife.Store.Rows.{
  Db, Issue, SchedulerEvent, EventType, EmailLog, create_next_issue, is_type, is_known_type,
  is_draft,
}
use piecesoflife.Store.Exec.{
  Result, ok, err, unique_violation, check_violation, foreign_key_violation,
}

-- A result row, or sql.ErrNoRows.
abbrev pub first_row {ℓ} : {A : Type ℓ} → Option A → Result A
first_row none = err piecesoflife.Store.Exec.Err.no_rows
first_row (some a) = ok a

abbrev pub is_pending : SchedulerEvent → Bool
is_pending ev = is_none ev.fired_at

-- Two values of the nullable column issue_id under a UNIQUE constraint. NULLs count as distinct
-- there; the partial index ux_scheduler_events_daily makes them equal again.
abbrev pub same_issue : Option ℕ → Option ℕ → Bool
same_issue none none = true
same_issue (some a) (some b) = a == b
same_issue _ _ = false

-- UNIQUE(issue_id, event_type, scheduled_at), with ux_scheduler_events_daily for a NULL issue_id.
abbrev pub same_key : Option ℕ → EventType → ℕ → SchedulerEvent → Bool
same_key issue_id event_type scheduled_at ev =
    same_issue ev.issue_id issue_id
    && is_type ev.event_type event_type
    && ev.scheduled_at == scheduled_at

-- issue_id INTEGER REFERENCES issues(id)
abbrev pub issue_exists : Db → Option ℕ → Bool
issue_exists db none = true
issue_exists db (some k) = exists_where (λ (iss : Issue). iss.id == k) db.issues

abbrev pub new_event : Db → Option ℕ → EventType → ℕ → ℕ → SchedulerEvent
new_event db issue_id event_type scheduled_at now = record {
  id = suc db.event_seq;
  issue_id = issue_id;
  event_type = event_type;
  scheduled_at = scheduled_at;
  fired_at = none;
  was_late = false;
  created_at = now;
}

abbrev pub add_event : Db → Option ℕ → EventType → ℕ → ℕ → Db
add_event db issue_id event_type scheduled_at now = record db {
  events = db.events ++ new_event db issue_id event_type scheduled_at now ∷ [];
  event_seq = suc db.event_seq;
}

-- INSERT INTO scheduler_events (issue_id, event_type, scheduled_at) VALUES (?, ?, ?)
unfoldable pub insert_event : Option ℕ → EventType → ℕ → ℕ → Db → Result (Unit {0} × Db)
insert_event issue_id event_type scheduled_at now db =
    if not (is_known_type event_type)
    then err check_violation
    else if exists_where (same_key issue_id event_type scheduled_at) db.events
    then err unique_violation
    else if issue_exists db issue_id
    then ok (tt, add_event db issue_id event_type scheduled_at now)
    else err foreign_key_violation

-- email_log.scheduler_event_id REFERENCES scheduler_events(id), with no ON DELETE clause.
abbrev pub is_logged : Db → SchedulerEvent → Bool
is_logged db ev = exists_where (λ (log : EmailLog). holds_id log.scheduler_event_id ev.id) db.emails

-- DELETE FROM scheduler_events WHERE …: the foreign key of email_log refuses the whole statement if
-- one of the rows is referenced.
unfoldable pub delete_events : (SchedulerEvent → Bool) → Db → Result (Unit {0} × Db)
delete_events p db =
    if exists_where (λ ev. p ev && is_logged db ev) db.events
    then err foreign_key_violation
    else ok (tt, record db { events = delete_where p db.events })

-- issue_id = ? AND fired_at IS NULL
abbrev pub is_pending_of_issue : ℕ → SchedulerEvent → Bool
is_pending_of_issue issue_id ev = holds_id ev.issue_id issue_id && is_pending ev

-- issue_id IN (SELECT id FROM issues WHERE group_id = ?)
abbrev pub issue_in_group : Db → ℕ → Option ℕ → Bool
issue_in_group db group_id none = false
issue_in_group db group_id (some k) =
    exists_where (λ (iss : Issue). iss.id == k && iss.group_id == group_id) db.issues

-- fired_at IS NULL AND event_type = ? AND issue_id IN (SELECT id FROM issues WHERE group_id = ?)
abbrev pub is_pending_in_group : Db → ℕ → EventType → SchedulerEvent → Bool
is_pending_in_group db group_id event_type ev =
    is_pending ev && is_type ev.event_type event_type && issue_in_group db group_id ev.issue_id

-- The join of an event with its issue, for an issue of the group that is still a draft.
abbrev pub issue_is_draft : Db → ℕ → Option ℕ → Bool
issue_is_draft db group_id none = false
issue_is_draft db group_id (some k) =
    exists_where (λ (iss : Issue). iss.id == k && iss.group_id == group_id && is_draft iss.status)
      db.issues

-- event_type = 'create_next_issue' AND fired_at IS NULL AND i.group_id = ? AND i.status = 'draft'
abbrev pub is_next_round : Db → ℕ → SchedulerEvent → Bool
is_next_round db group_id ev =
    is_type ev.event_type create_next_issue
    && is_pending ev
    && issue_is_draft db group_id ev.issue_id

-- … ORDER BY e.scheduled_at ASC LIMIT 1
unfoldable pub next_round_event : ℕ → Db → Option SchedulerEvent
next_round_event group_id db =
    earliest_where (is_next_round db group_id) (λ ev. ev.scheduled_at) db.events
