-- ===== src/Store/WellFormed/Operations.antt =====
-- Every operation of internal/store that writes the rounds' tables, and any sequence of them.
use piecesoflife.Prelude.{
  ℕ, suc, String, ◌≡◌, refl, Bool, true, false, not, ◌&&◌, Option, none, some, List, [], ◌∷◌, ◌++◌,
  arith, update_where,
}
use piecesoflife.Store.Rows.{Db, Status, Issue, SchedulerEvent, EventType, SchedulerEventSpec}
use piecesoflife.Store.Exec.{Result, ok, err, exec}
use piecesoflife.Store.Exec.Respects.{
  Respects, Respects-exec, Respects-bind, Respects-pure, respects_rules, Grants, Grants-ok,
  Grants-err, Grants-if, grants_rules,
}
use piecesoflife.Store.WellFormed.{
  IsWellFormed, KeepsForm, KeepsForm-preorder, add_event-KeepsForm, insert_event-KeepsForm,
  delete_events-KeepsForm, update_events-KeepsForm, update_issues-KeepsForm, add_issue-KeepsForm,
  aside-KeepsForm,
}
use piecesoflife.Store.Sql.{insert_event}
use piecesoflife.Store.Events.{
  create_scheduler_event, insert_or_ignore, ensure_daily_event, fire, fire_row, mark_event_fired,
  counted, delete_group_events, is_pending_of_group, delete_pending_group_events_by_type,
  delete_pending_events_for_group, rearm, upsert_event, upsert_all, requeue_issue_events,
}
use piecesoflife.Store.Issues.{
  new_issue, insert_issue, create_issue, update_issues, expect_one, update_one_issue,
  update_issue_schedule, update_draft_issue, insert_events, open_early, open_draft_early,
  update_issue, set_issue_status, publish_issue,
}
use piecesoflife.Store.Schedule.{save_window}

free_of_test : (a b : Bool) → (a && not b) ≡ true → b ≡ false
free_of_test a b h = ground arith

pub unchanged-KeepsForm : (db : Db) → KeepsForm db db
unchanged-KeepsForm db h = h

pub insert_or_ignore-KeepsForm :
    (event_type : EventType) (scheduled_at now : ℕ) (db : Db)
    → Grants KeepsForm db (insert_or_ignore event_type scheduled_at now db)
unfolding insert_or_ignore
insert_or_ignore-KeepsForm event_type scheduled_at now db =
    search (grants_rules, add_event-KeepsForm, free_of_test, unchanged-KeepsForm) depth 9

pub fire_row-KeepsForm :
    (id : ℕ) (was_late : Bool) (now : ℕ) (db : Db)
    → Grants KeepsForm db (fire_row id was_late now db)
unfolding fire_row
fire_row-KeepsForm id was_late now db =
    Grants-ok (update_events-KeepsForm _ (fire now was_late) db (λ x. refl) (λ x y. refl))

pub rearm-KeepsForm :
    (p : SchedulerEvent → Bool) (db : Db)
    → KeepsForm db (record db { events = update_where p rearm db.events })
rearm-KeepsForm p db = update_events-KeepsForm p rearm db (λ x. refl) (λ x y. refl)

pub upsert_event-KeepsForm :
    (issue_id : ℕ) (event_type : EventType) (scheduled_at now : ℕ) (db : Db)
    → Grants KeepsForm db (upsert_event issue_id event_type scheduled_at now db)
unfolding upsert_event
upsert_event-KeepsForm issue_id event_type scheduled_at now db =
    search (grants_rules, add_event-KeepsForm, rearm-KeepsForm) depth 9

pub counted-KeepsForm :
    (n : ℕ) (db : Db) (r : Result (Unit {0} × Db))
    → Grants KeepsForm db r
    → Grants KeepsForm db (counted n r)
counted-KeepsForm n db (ok (u, db')) g = Grants-ok g.granted
counted-KeepsForm n db (err e) g = Grants-err

pub delete_group_events-KeepsForm :
    (group_id : ℕ) (event_type : Option EventType) (db : Db)
    → Grants KeepsForm db (delete_group_events group_id event_type db)
unfolding delete_group_events
delete_group_events-KeepsForm group_id event_type db =
    counted-KeepsForm _ db _
      (delete_events-KeepsForm (is_pending_of_group db group_id event_type) db)

pub new_issue-KeepsForm :
    (group_id : ℕ) (title : Option String) (month year opens_at deadline now : ℕ) (db : Db)
    → KeepsForm db (record db {
      issues = db.issues ++ new_issue db group_id title month year opens_at deadline now ∷ [];
      issue_seq = suc db.issue_seq;
    })
new_issue-KeepsForm group_id title month year opens_at deadline now db =
    add_issue-KeepsForm (new_issue db group_id title month year opens_at deadline now) db refl

pub insert_issue-KeepsForm :
    (group_id : ℕ) (title : Option String) (month year opens_at deadline now : ℕ) (db : Db)
    → Grants KeepsForm db (insert_issue group_id title month year opens_at deadline now db)
unfolding insert_issue
insert_issue-KeepsForm group_id title month year opens_at deadline now db =
    search (grants_rules, new_issue-KeepsForm)

-- An update of issues that keeps their ids.
pub update_issues-Grants :
    (p : Issue → Bool) (f : Issue → Issue)
    → ((x : Issue) → (f x).id ≡ x.id)
    → (db : Db) → Grants KeepsForm db (update_issues p f db)
unfolding update_issues
update_issues-Grants p f kept db = Grants-ok (update_issues-KeepsForm p f db kept)

pub save_window-KeepsForm :
    (group_id window_days : ℕ) (db : Db) → Grants KeepsForm db (save_window group_id window_days db)
unfolding save_window
save_window-KeepsForm group_id window_days db = Grants-ok (aside-KeepsForm db _ refl refl refl refl)

pub ruleset form_rules = (
  respects_rules, KeepsForm-preorder, Respects-exec, insert_or_ignore-KeepsForm, fire_row-KeepsForm,
  upsert_event-KeepsForm, delete_group_events-KeepsForm, insert_issue-KeepsForm,
  save_window-KeepsForm, insert_event-KeepsForm, delete_events-KeepsForm, update_issues-Grants,
)

pub create_scheduler_event-Respects :
    (issue_id : Option ℕ) (event_type : EventType) (scheduled_at : ℕ)
    → Respects KeepsForm (create_scheduler_event issue_id event_type scheduled_at)
unfolding create_scheduler_event
create_scheduler_event-Respects issue_id event_type scheduled_at = search form_rules depth 9

pub ensure_daily_event-Respects :
    (event_type : EventType) (scheduled_at : ℕ)
    → Respects KeepsForm (ensure_daily_event event_type scheduled_at)
unfolding ensure_daily_event
ensure_daily_event-Respects event_type scheduled_at = search form_rules depth 9

pub mark_event_fired-Respects :
    (id : ℕ) (was_late : Bool) → Respects KeepsForm (mark_event_fired id was_late)
unfolding mark_event_fired
mark_event_fired-Respects id was_late = search form_rules depth 9

pub upsert_all-Respects :
    (issue_id now : ℕ) (specs : List SchedulerEventSpec)
    → Respects KeepsForm (upsert_all issue_id now specs)
unfolding upsert_all
upsert_all-Respects issue_id now [] = search form_rules
upsert_all-Respects issue_id now (spec ∷ specs) =
    Respects-bind KeepsForm-preorder
      (exec (upsert_event issue_id spec.event_type spec.scheduled_at now))
      (λ _. upsert_all issue_id now specs) (search form_rules)
      (λ _. upsert_all-Respects issue_id now specs)

pub requeue_issue_events-Respects :
    (issue_id : ℕ) (specs : List SchedulerEventSpec)
    → Respects KeepsForm (requeue_issue_events issue_id specs)
unfolding requeue_issue_events
requeue_issue_events-Respects issue_id specs = search (form_rules, upsert_all-Respects) depth 12

pub delete_pending_group_events_by_type-Respects :
    (group_id : ℕ) (event_type : Option EventType)
    → Respects KeepsForm (delete_pending_group_events_by_type group_id event_type)
unfolding delete_pending_group_events_by_type
delete_pending_group_events_by_type-Respects group_id event_type = search form_rules

pub delete_pending_events_for_group-Respects :
    (group_id : ℕ) → Respects KeepsForm (delete_pending_events_for_group group_id)
unfolding delete_pending_events_for_group
delete_pending_events_for_group-Respects group_id =
    delete_pending_group_events_by_type-Respects group_id none

pub create_issue-Respects :
    (group_id : ℕ) (title : Option String) (month year opens_at deadline : ℕ)
    → Respects KeepsForm (create_issue group_id title month year opens_at deadline)
unfolding create_issue
create_issue-Respects group_id title month year opens_at deadline = search form_rules depth 9

pub expect_one-Respects : (n : ℕ) → Respects KeepsForm (expect_one n)
unfolding expect_one
expect_one-Respects n = search form_rules

pub update_one_issue-Respects :
    (p : Issue → Bool) (f : Issue → Issue)
    → ((x : Issue) → (f x).id ≡ x.id)
    → Respects KeepsForm (update_one_issue p f)
unfolding update_one_issue
update_one_issue-Respects p f kept = search (form_rules, expect_one-Respects, kept) depth 9

pub update_issue_schedule-Respects :
    (id month year opens_at deadline : ℕ)
    → Respects KeepsForm (update_issue_schedule id month year opens_at deadline)
unfolding update_issue_schedule
update_issue_schedule-Respects id month year opens_at deadline =
    update_one_issue-Respects _ _ (λ x. refl)

pub update_draft_issue-Respects :
    (id : ℕ) (title : Option String) (deadline : ℕ)
    → Respects KeepsForm (update_draft_issue id title deadline)
unfolding update_draft_issue
update_draft_issue-Respects id title deadline = update_one_issue-Respects _ _ (λ x. refl)

pub insert_events-Respects :
    (issue_id now : ℕ) (specs : List SchedulerEventSpec)
    → Respects KeepsForm (insert_events issue_id now specs)
unfolding insert_events
insert_events-Respects issue_id now [] = search form_rules
insert_events-Respects issue_id now (spec ∷ specs) =
    Respects-bind KeepsForm-preorder
      (exec (insert_event (some issue_id) spec.event_type spec.scheduled_at now))
      (λ _. insert_events issue_id now specs) (search form_rules)
      (λ _. insert_events-Respects issue_id now specs)

open_early-kept :
    (update_title : Bool) (title : Option String) (month year opens_at deadline : ℕ) (x : Issue)
    → (open_early update_title title month year opens_at deadline x).id ≡ x.id
open_early-kept update_title title month year opens_at deadline x = refl

pub open_draft_early-Respects :
    (group_id issue_id : ℕ) (update_title : Bool) (title : Option String)
    (month year opens_at deadline : ℕ) (events : List SchedulerEventSpec)
    → Respects KeepsForm
        (open_draft_early group_id issue_id update_title title month year opens_at deadline events)
unfolding open_draft_early
open_draft_early-Respects group_id issue_id update_title title month year opens_at deadline events =
    search (form_rules, update_one_issue-Respects, open_early-kept, insert_events-Respects) depth 14

pub update_issue-Respects :
    (id : ℕ) (title : Option String) (deadline : Option ℕ)
    → Respects KeepsForm (update_issue id title deadline)
unfolding update_issue
update_issue-Respects id title deadline = search form_rules depth 9

pub set_issue_status-Respects :
    (id : ℕ) (status : Status) → Respects KeepsForm (set_issue_status id status)
unfolding set_issue_status
set_issue_status-Respects id status = search form_rules depth 9

pub publish_issue-Respects : (id : ℕ) → Respects KeepsForm (publish_issue id)
unfolding publish_issue
publish_issue-Respects id = search form_rules depth 9
