-- ===== src/Examples/Tables.antt =====
-- The theorems about internal/store on the example tables.
use mathlib.Core.Bool.{xor}
use piecesoflife.Prelude.{
  ℕ, ◌≡◌, refl, ◌≤◌, ◌<◌, ◌+◌, ◌%◌, ◌⊎◌, Option, Bool, true, false, none, some, arith, All,
}
use piecesoflife.Store.Rows.{Db, reminder_email, sent}
use piecesoflife.Store.Exec.{
  Err, Result, ok, err, World, view, calm, pure, raise, query_write, exec, transaction, framed,
  get_now, ◌>>=◌, foreign_key_violation, token_already_consumed,
}
use piecesoflife.Store.Schedule.{
  ScheduleUpdate, check_overlap, clear_of_pinned, apply_current, apply_next, schedule_body,
  apply_schedule,
}
use piecesoflife.Store.Sql.{next_round_event, insert_event, delete_events}
use piecesoflife.Store.Issues.{update_one_issue, update_issues, expect_one, insert_events}
use piecesoflife.Store.Schedule.Effects.{IsQueuedFor}
use piecesoflife.Store.Schedule.Atomic.{IsReplaced, apply_schedule_atomic}
use piecesoflife.Store.Schedule.Replaced.{pending_specs, IsMoved, apply_schedule_replaces_events}
use piecesoflife.Store.Operation.{Operation, perform}
use piecesoflife.Store.Labels.{next_available_issue_label}
use piecesoflife.Store.Labels.Search.{FindsLabel, next_available_issue_label_total}
use piecesoflife.Store.Emails.{reserve, reset_log, begin_scheduler_email_attempt, update_email_log}
use piecesoflife.Store.Emails.Once.{sent_once}
use piecesoflife.Store.Events.{upsert_event, upsert_all, requeue_issue_events}
use piecesoflife.Store.Events.Requeue.{
  has_pending, is_one_of, AllPending, requeue_issue_events_exact, requeue_issue_events_refused,
}
use piecesoflife.Store.Auth.{consume_row, consume_auth_token}
use piecesoflife.Store.Auth.Once.{consume_auth_token_once}
use piecesoflife.Scheduler.{schedule_daily_cleanup}
use piecesoflife.Scheduler.Daily.{is_queued, daily_types, schedule_daily_cleanup_once}
use piecesoflife.Examples.Data.{tables, at_clock, due, half_sent, new_specs}

-- The close moves from 1000000 to 1200000.
abbrev extension : ScheduleUpdate
extension = record {
  group_id = 1;
  current_issue_id = some 1;
  current_deadline = some 1200000;
  current_title = none;
  current_events = new_specs;
  next_open = none;
  next_close = none;
  next_month = 4;
  next_year = 2026;
  window_days = 7;
}

abbrev half_sent_due : World
half_sent_due = at_clock 600000 half_sent

-- Both halves: the close moves, and the next round opens after it.
abbrev both : ScheduleUpdate
both = record extension { next_open = some 1300000; next_close = some 1900000 }

apply_schedule_atomic_example :
    ((e : Err) × ((apply_schedule both due).0 ≡ err e) × ((apply_schedule both due).1.db ≡ tables))
    ⊎ ((r : Option ℕ) × ((apply_schedule both due).0 ≡ ok r)
        × IsReplaced (some 1) new_specs (apply_schedule both due).1.db
        × IsQueuedFor (some 1300000) r (apply_schedule both due).1.db)
apply_schedule_atomic_example = apply_schedule_atomic both due

extension_done : (apply_schedule extension due).0 ≡ ok none
unfolding apply_schedule schedule_body check_overlap clear_of_pinned next_round_event apply_current
    apply_next update_one_issue update_issues expect_one delete_events insert_events insert_event
    transaction framed get_now query_write exec pure raise ◌>>=◌ xor
extension_done = refl

apply_schedule_replaces_events_example :
    (pending_specs 1 (apply_schedule extension due).1.db ≡ new_specs)
    × IsMoved 1 1 1200000 none tables (apply_schedule extension due).1.db
apply_schedule_replaces_events_example =
    apply_schedule_replaces_events extension due 1 1200000 none refl refl refl extension_done

abbrev extended : Db
extended = (perform (Operation.apply_schedule extension) due).1.db

next_available_issue_label_total_example :
    (label : ℕ × ℕ) × (next_available_issue_label 1 0 3 2026 (calm due) ≡ (ok label, calm due))
    × FindsLabel (view due) 1 0 3 2026 label
next_available_issue_label_total_example =
    next_available_issue_label_total due 1 0 3 2026 (omega arith) (omega arith)

abbrev begun : Result (ℕ × Bool) × World
begun = begin_scheduler_email_attempt 1 1 (some 1) (some 1) reminder_email half_sent_due

begun_again : begun.0 ≡ ok (1, true)
unfolding begin_scheduler_email_attempt reserve reset_log transaction framed query_write exec pure
    ◌>>=◌
begun_again = refl

abbrev delivered : World
delivered = (update_email_log 1 sent (some 600000) false (calm begun.1)).1

sent_once_example :
    begin_scheduler_email_attempt 1 1 (some 1) (some 1) reminder_email (calm delivered)
    ≡ (ok (1, false), calm delivered)
sent_once_example =
    sent_once 1 1 (some 1) (some 1) reminder_email half_sent_due 1 true (some 600000) begun_again

requeued_due : (requeue_issue_events 1 new_specs due).0 ≡ ok tt
unfolding requeue_issue_events delete_events upsert_all upsert_event transaction framed get_now
    query_write exec pure ◌>>=◌
requeued_due = refl

requeue_issue_events_exact_example :
    AllPending (is_one_of 1 new_specs) 1 (requeue_issue_events 1 new_specs due).1.db
    × All (λ spec. has_pending 1 spec (requeue_issue_events 1 new_specs due).1.db ≡ true) new_specs
requeue_issue_events_exact_example = requeue_issue_events_exact 1 new_specs due requeued_due

requeue_issue_events_refused_example :
    requeue_issue_events 1 new_specs (calm half_sent_due)
    ≡ (err foreign_key_violation, calm half_sent_due)
requeue_issue_events_refused_example = requeue_issue_events_refused 1 new_specs half_sent_due refl

abbrev clock_at : ℕ → World → World
clock_at t w = record (calm w) { now = t }

schedule_daily_cleanup_once_example :
    (v : World) × (schedule_daily_cleanup (calm due) ≡ (ok tt, calm v))
    × All (λ t. is_queued 604800 t v.db ≡ true) daily_types
    × (604800 % 86400 ≡ 0)
    × (600000 < 604800)
    × (604800 ≤ 600000 + 86400)
    × ((t : ℕ)
        → 600000 ≤ t
        → t < 604800
        → schedule_daily_cleanup (clock_at t v) ≡ (ok tt, clock_at t v))
schedule_daily_cleanup_once_example = schedule_daily_cleanup_once due

consumed_due : (consume_auth_token 1 due).0 ≡ ok tt
unfolding consume_auth_token consume_row exec get_now pure raise ◌>>=◌
consumed_due = refl

consume_auth_token_once_example :
    consume_auth_token 1 (clock_at 600060 (consume_auth_token 1 due).1)
    ≡ (err token_already_consumed, clock_at 600060 (consume_auth_token 1 due).1)
consume_auth_token_once_example = consume_auth_token_once 1 600060 due consumed_due
