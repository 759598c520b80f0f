-- ===== src/Examples/Plans.antt =====
-- The theorems about the rounds on the example tables, with a calendar that only numbers its days.
use mathlib.Core.Bool.{xor}
use piecesoflife.Prelude.{
  ℕ, ◌≡◌, ◌+◌, ◌-◌, ◌*◌, ◌/◌, ◌%◌, ◌≤◌, refl, none, List, [], ◌∷◌, ◌++◌, arith, All, select,
}
use piecesoflife.Store.Rows.{SchedulerEventSpec, monthly}
use piecesoflife.Store.Exec.{
  Result, World, calm, ok, pure, raise, attempt, query, query_write, exec, transaction, framed,
  get_now, ◌>>=◌,
}
use piecesoflife.Store.Groups.{get_settings}
use piecesoflife.Store.Events.{
  has_recent_fired_reminder, get_pending_next_round_event, delete_group_events,
  delete_pending_group_events_by_type, create_scheduler_event,
}
use piecesoflife.Store.Sql.{next_round_event, insert_event, delete_events}
use piecesoflife.Store.Issues.{
  update_one_issue, update_issues, expect_one, insert_events, get_next_draft_issue, insert_issue,
  create_issue,
}
use piecesoflife.Store.Schedule.{
  check_overlap, clear_of_pinned, apply_current, apply_next, schedule_body, apply_schedule,
}
use piecesoflife.Store.Schedule.Replaced.{pending_specs, IsMoved}
use piecesoflife.Rounds.{
  Calendar, settings_location, at_local_hour, soon_left_out, email_slots, issue_event_specs,
  with_immediate, rescheduled_specs, rescheduled_issue_event_specs, reschedule_issue_deadline,
  default_deadline,
}
use piecesoflife.Rounds.Plan.{
  is_close, close_at, IsTimelyEmail, issue_event_specs_plan, reschedule_issue_deadline_closes,
}
use piecesoflife.Store.Labels.{label_walk, next_available_label, next_available_issue_label}
use piecesoflife.Rounds.Queue.{
  issue_label, add_months_clamped, cadence_slot, next_issue_open_time, cadence_next_open,
  create_next_draft, ensure_next_draft, queue_afresh, unless_queued, queue_steps,
  queue_next_issue_event,
}
use piecesoflife.Rounds.Queue.Once.{IsQueued, queue_next_issue_event_once}
use piecesoflife.Rounds.Queue.Times.{KeepsMornings, cadence_next_open_ahead}
use piecesoflife.Examples.Data.{loop_settings, running, due, long_after}

-- One location, one month without end.
abbrev pub numbered_days : Calendar (Unit {0})
numbered_days = record {
  utc = tt;
  stored = tt;
  load_location = λ name. none;
  civil = λ zone t. record {
    year = 2026;
    month = 1;
    day = t / 86400;
    hour = t % 86400 / 3600;
    minute = t % 3600 / 60;
    second = t % 60;
  };
  date = λ zone c. c.day * 86400 + c.hour * 3600 + c.minute * 60 + c.second;
  add_days = λ zone t n. t + n * 86400;
  sub_days = λ zone t n. t - n * 86400;
}

numbered_days-KeepsMornings : KeepsMornings numbered_days tt
unfolding at_local_hour
numbered_days-KeepsMornings = record { same_day = λ t. omega arith; next_day = λ t. omega arith }

issue_event_specs_plan_example :
    (emails : List SchedulerEventSpec) × (issue_event_specs numbered_days 600000 none 1000000 tt
      ≡ emails ++ close_at 1000000 ∷ [])
    × All (IsTimelyEmail 600000) emails
    × (select is_close (issue_event_specs numbered_days 600000 none 1000000 tt)
        ≡ close_at 1000000 ∷ [])
issue_event_specs_plan_example = issue_event_specs_plan numbered_days 600000 1000000 none tt

moved : (reschedule_issue_deadline numbered_days running 1200000 tt none due).0 ≡ ok tt
unfolding reschedule_issue_deadline rescheduled_issue_event_specs rescheduled_specs with_immediate
    issue_event_specs soon_left_out email_slots settings_location at_local_hour get_settings
    has_recent_fired_reminder apply_schedule schedule_body check_overlap clear_of_pinned
    next_round_event apply_current apply_next update_one_issue update_issues expect_one
    delete_events insert_events insert_event transaction framed get_now attempt query query_write
    exec pure raise ◌>>=◌ xor
moved = refl

reschedule_issue_deadline_closes_example :
    (select is_close
        (pending_specs 1 (reschedule_issue_deadline numbered_days running 1200000 tt none due).1.db)
      ≡ close_at 1200000 ∷ [])
    × IsMoved 1 1 1200000 none due.db
        (reschedule_issue_deadline numbered_days running 1200000 tt none due).1.db
reschedule_issue_deadline_closes_example =
    reschedule_issue_deadline_closes numbered_days running 1200000 tt none due moved

cadence_next_open_ahead_example :
    2000000 + 43200 ≤ cadence_next_open numbered_days 2000000 100000 monthly tt
cadence_next_open_ahead_example =
    cadence_next_open_ahead numbered_days tt 2000000 100000 monthly numbered_days-KeepsMornings

abbrev queueing : Result (Unit {0}) × World
queueing = queue_steps numbered_days loop_settings 100000 long_after

queueing_done : queueing.0 ≡ ok tt
unfolding queue_steps unless_queued queue_afresh ensure_next_draft create_next_draft
    cadence_next_open next_issue_open_time cadence_slot add_months_clamped issue_label
    settings_location at_local_hour default_deadline label_walk next_available_label
    next_available_issue_label get_pending_next_round_event next_round_event delete_group_events
    delete_pending_group_events_by_type delete_events get_next_draft_issue create_issue insert_issue
    create_scheduler_event insert_event get_now attempt query exec pure ◌>>=◌
queueing_done = refl

queue_next_issue_event_once_example :
    IsQueued 1 queueing.1.db
    × ((v : World) (t' : ℕ)
        → v.frozen ≡ none
        → v.db ≡ queueing.1.db
        → queue_next_issue_event numbered_days loop_settings t' (calm v) ≡ (ok tt, calm v))
queue_next_issue_event_once_example =
    queue_next_issue_event_once numbered_days loop_settings 100000 long_after refl queueing_done
