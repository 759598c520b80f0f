-- ===== src/Store/Schedule.antt =====
-- internal/store/scheduler.go: ApplySchedule, the transaction behind every reschedule of a live
-- round and every pinned next round.
pub mod Effects
pub mod Replaced
mod Kept
pub mod Atomic
use piecesoflife.Prelude.{
  ℕ, suc, String, Bool, not, ◌&&◌, Option, none, some, List, ◌==◌, ltb, if◌then◌else◌, xor,
  count_where, update_where, first_where, earliest_where, is_none,
}
use piecesoflife.Store.Rows.{
  Db, Issue, Settings, SchedulerEvent, SchedulerEventSpec, is_collecting, create_next_issue,
}
use piecesoflife.Store.Exec.{
  Result, ok, err, Exec, schedule_overlap, invalid_update, pure, raise, query_write, exec, get_now,
  transaction, ◌>>=◌, ◌>>◌,
}
use piecesoflife.Store.Sql.{
  insert_event, delete_events, is_pending_of_issue, is_pending_in_group, next_round_event,
}
use piecesoflife.Store.Issues.{
  is_issue, in_group, is_collecting_of, is_draft_of, is_draft_of_group, coalesce_title, reschedule,
  insert_events, insert_issue, expect_one, update_one_issue,
}
use piecesoflife.Store.Labels.{next_available_issue_label_tx}

pub record ScheduleUpdate : Type 0 where
  pub group_id : ℕ
  pub current_issue_id : Option ℕ
  pub current_deadline : Option ℕ
  pub current_title : Option String
  pub current_events : List SchedulerEventSpec
  pub next_open : Option ℕ
  pub next_close : Option ℕ
  pub next_month : ℕ
  pub next_year : ℕ
  pub window_days : ℕ

abbrev pub overlap_unless : Bool → Exec (Unit {0})
overlap_unless clear = if clear then pure tt else raise schedule_overlap

-- The queued next round must open after the deadline.
unfoldable pub clear_of_pinned : ℕ → Option SchedulerEvent → Exec (Unit {0})
clear_of_pinned deadline none = pure tt
clear_of_pinned deadline (some ev) = overlap_unless (ltb deadline ev.scheduled_at)

-- The collecting round must close before the opening.
unfoldable pub clear_of_current : ℕ → Option Issue → Exec (Unit {0})
clear_of_current opening none = pure tt
clear_of_current opening (some iss) = overlap_unless (ltb iss.deadline opening)

-- The `switch` on which halves are present.
unfoldable pub check_overlap : ℕ → Option ℕ → Option ℕ → Exec (Unit {0})
check_overlap group_id (some deadline) (some opening) = overlap_unless (ltb deadline opening)
check_overlap group_id (some deadline) none = do
  pinned ← query_write (λ db. ok (next_round_event group_id db))
  clear_of_pinned deadline pinned
check_overlap group_id none (some opening) = do
  current ← query_write (λ db. ok (first_where (is_collecting_of group_id) db.issues))
  clear_of_current opening current
check_overlap group_id none none = pure tt

abbrev pub is_collecting_of_group : ℕ → ℕ → Issue → Bool
is_collecting_of_group id group_id iss =
    is_issue id iss && in_group group_id iss && is_collecting iss.status

abbrev pub move_deadline : ℕ → Option String → Issue → Issue
move_deadline deadline title iss = record iss {
  title = coalesce_title title iss.title;
  deadline = deadline;
}

-- The first half: the live round's deadline and its lifecycle events.
unfoldable pub apply_current : ScheduleUpdate → ℕ → Option ℕ → Option ℕ → Exec (Unit {0})
apply_current update now (some id) (some deadline) = do
  update_one_issue (is_collecting_of_group id update.group_id)
      (move_deadline deadline update.current_title)
  exec (delete_events (is_pending_of_issue id))
  insert_events id now update.current_events
apply_current update now _ _ = pure tt

abbrev pub has_settings : ℕ → Settings → Bool
has_settings group_id st = st.group_id == group_id

-- UPDATE settings SET submission_window_days = ? WHERE group_id = ?
unfoldable pub save_window : ℕ → ℕ → Db → Result (ℕ × Db)
save_window group_id window_days db = ok (
  count_where (has_settings group_id) db.settings,
  record db {
    settings =
        update_where (has_settings group_id)
          (λ st. record st { submission_window_days = window_days }) db.settings;
  },
)

-- The draft that is moved, or a fresh one.
unfoldable pub place_draft : ScheduleUpdate → ℕ → ℕ → ℕ → ℕ → ℕ → Option Issue → Exec ℕ
place_draft update now opening closing month year (some d) = do
  update_one_issue (is_draft_of_group d.id update.group_id) (reschedule month year opening closing)
  pure d.id
place_draft update now opening closing month year none =
    exec (insert_issue update.group_id none month year opening closing now)

abbrev pub id_or_zero : Option Issue → ℕ
id_or_zero none = 0
id_or_zero (some d) = d.id

-- The second half: the answering window, the next draft and its queued opening.
unfoldable pub apply_next : ScheduleUpdate → ℕ → Option ℕ → Option ℕ → Exec (Option ℕ)
apply_next update now (some opening) (some closing) = do
  n ← exec (save_window update.group_id update.window_days)
  expect_one n
  exec (λ db. delete_events (is_pending_in_group db update.group_id create_next_issue) db)
  d ←
      query_write
        (λ db. ok (earliest_where (is_draft_of update.group_id) (λ iss. iss.opens_at) db.issues))
  label ←
      next_available_issue_label_tx update.group_id (id_or_zero d) update.next_month
        update.next_year
  draft_id ← place_draft update now opening closing label.0 label.1 d
  exec (insert_event (some draft_id) create_next_issue opening now)
  pure (some draft_id)
apply_next update now _ _ = pure none

-- The body of the transaction.
unfoldable pub schedule_body : ScheduleUpdate → ℕ → Exec (Option ℕ)
schedule_body update now = do
  check_overlap update.group_id update.current_deadline update.next_open
  apply_current update now update.current_issue_id update.current_deadline
  apply_next update now update.next_open update.next_close

abbrev pub is_half : Option ℕ → Option ℕ → Bool
is_half a b = xor (is_none a) (is_none b)

unfoldable pub apply_schedule : ScheduleUpdate → Exec (Option ℕ)
apply_schedule update =
    if is_half update.current_issue_id update.current_deadline
    then raise invalid_update
    else if is_half update.next_open update.next_close
    then raise invalid_update
    else do now ← get_now; transaction (schedule_body update now)
