-- ===== src/Examples/Passes.antt =====
-- The scheduler's theorems on the example tables.
use piecesoflife.Prelude.{
  ℕ, ◌≡◌, ◌≢◌, refl, inr, ◌↔◌, true, false, Option, some, none, [], ◌∷◌, arith,
}
use piecesoflife.Store.Rows.{reminder_email}
use piecesoflife.Store.Exec.{ok, err, handler, World, Exec, tick, calm}
use piecesoflife.Store.Events.{fire}
use piecesoflife.Store.WellFormed.{IsWellFormed}
use piecesoflife.Scheduler.{Actions, SkipReason, should_skip_event, run_handler, fire_event}
use piecesoflife.Scheduler.Skip.{IsStale, should_skip-iff-IsStale}
use piecesoflife.Scheduler.Fire.{
  marked, fire_event_not_pending, fire_event_archived, fire_event_stale, fire_event_retried,
  fire_event_done,
}
use piecesoflife.Scheduler.Fire.Once.{fire_event_once}
use piecesoflife.Examples.Data.{
  running, paused, first_reminder, paused_reminder, active_group, archived_group, tables, at_clock,
  due, long_after,
}

abbrev sent_reminder : ℕ → World → World
sent_reminder k w = record w {
  outbox = record { user_id = 1; email_type = reminder_email; issue_id = k } ∷ w.outbox;
}

abbrev idle : Exec (Unit {0})
idle w = (ok tt, w)

-- Actions that send one reminder, and do nothing else.
abbrev mailing : Actions
mailing = record {
  send_reminder_for_issue = λ k final ev w. (ok tt, sent_reminder k w);
  send_admin_summary_for_issue = λ k ev. idle;
  auto_publish_issue = λ k. idle;
  create_next_issue = λ g t. idle;
  reconcile_auto_create = idle;
  send_comment_digests = idle;
  check_upload_integrity = idle;
}

-- Actions whose reminders fail.
abbrev failing : Actions
failing = record mailing {
  send_reminder_for_issue = λ k final ev w. (err handler, sent_reminder k w);
}

pub tables-IsWellFormed : IsWellFormed tables
tables-IsWellFormed = record {
  event_keys = (refl, (refl, (refl, tt)));
  event_ids = (refl, (refl, (refl, tt)));
  event_ids_given = (omega arith, (omega arith, (omega arith, tt)));
  issue_ids = (refl, (refl, tt));
  issue_ids_given = (omega arith, (omega arith, tt));
}

reminder_fresh : ¬ IsStale first_reminder running 600000
reminder_fresh = ground arith

reminder-IsStale : IsStale first_reminder running 2000000
reminder-IsStale = ground arith

abbrev all_fired : World
all_fired = at_clock 600000 (record tables { events = fire 550000 false first_reminder ∷ [] })

fire_event_not_pending_example :
    fire_event mailing first_reminder false all_fired ≡ (ok tt, tick all_fired)
fire_event_not_pending_example =
    fire_event_not_pending mailing first_reminder false all_fired (inr refl)

fire_event_archived_example :
    fire_event mailing paused_reminder false (calm due) ≡ (ok tt, marked 3 false (calm due))
fire_event_archived_example =
    fire_event_archived mailing paused_reminder false due 2 paused archived_group refl refl refl
      refl refl

fire_event_stale_example :
    fire_event mailing first_reminder false (calm long_after)
    ≡ (ok tt, marked 1 true (calm long_after))
fire_event_stale_example =
    fire_event_stale mailing first_reminder false long_after 1 running active_group refl refl refl
      refl refl reminder-IsStale

reminder_fails :
    (run_handler failing first_reminder first_reminder.event_type first_reminder.issue_id
      (calm due)).0
    ≡ err handler
unfolding run_handler
reminder_fails = refl

fire_event_retried_example : fire_event failing first_reminder false (calm due) ≡ (
  ok tt,
  (run_handler failing first_reminder first_reminder.event_type first_reminder.issue_id
      (calm due)).1,
)
fire_event_retried_example =
    fire_event_retried failing first_reminder false due 1 running active_group refl refl refl refl
      handler refl reminder_fresh reminder_fails

reminder_sends :
    run_handler mailing first_reminder first_reminder.event_type first_reminder.issue_id (calm due)
    ≡ (ok tt, calm (sent_reminder 1 due))
unfolding run_handler
reminder_sends = refl

fire_event_done_example :
    fire_event mailing first_reminder false (calm due)
    ≡ (ok tt, marked 1 false (calm (sent_reminder 1 due)))
fire_event_done_example =
    fire_event_done mailing first_reminder false due 1 running active_group refl refl refl refl
      (sent_reminder 1 due) refl reminder_fresh reminder_sends

-- The readers go on seeing the tables as they were.
abbrev stuck : World
stuck = record due { frozen = some tables }

stuck_sends :
    run_handler mailing first_reminder first_reminder.event_type first_reminder.issue_id
      (calm stuck)
    ≡ (ok tt, calm (sent_reminder 1 stuck))
unfolding run_handler
stuck_sends = refl

fire_event_once_example :
    fire_event mailing first_reminder true (fire_event mailing first_reminder false (calm stuck)).1
    ≡ (ok tt, tick (fire_event mailing first_reminder false (calm stuck)).1)
fire_event_once_example =
    fire_event_once mailing first_reminder false stuck 1 running active_group true refl refl refl
      refl (inr (inr (sent_reminder 1 stuck, stuck_sends)))

should_skip-iff-IsStale_example :
    (r : Option SkipReason) × ((should_skip_event first_reminder long_after).0 ≡ ok r)
    × ((r ≢ none) ↔ IsStale first_reminder running 2000000)
should_skip-iff-IsStale_example =
    should_skip-iff-IsStale first_reminder 1 running long_after refl refl refl
