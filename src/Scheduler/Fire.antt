-- ===== src/Scheduler/Fire.antt =====
-- fireEvent: what it does on each of its paths, whatever the handlers are.
pub mod Once
use piecesoflife.Prelude.{
  ℕ, ◌≡◌, ◌⊎◌, Bool, true, false, not, ◌&&◌, ◌==◌, some, arith, exists_where, first_where,
  update_where,
}
use piecesoflife.Store.Rows.{Issue, Group, SchedulerEvent}
use piecesoflife.Store.Exec.{
  ok, err, Err, World, view, tick, calm, next_fault, pure, raise, attempt, query, query_write, exec,
  get_now, ◌>>=◌,
}
use piecesoflife.Store.Sql.{is_pending}
use piecesoflife.Store.Events.{has_id, fire_row, is_event_pending, mark_event_fired}
use piecesoflife.Store.Issues.{is_issue, get_issue_by_id}
use piecesoflife.Store.Groups.{is_group, get_group}
use piecesoflife.Scheduler.{
  Actions, logged, is_issue_archived, is_archived, run_handler, finish_event, handle_event, act_on,
  on_pending, fire_event,
}
use piecesoflife.Scheduler.Skip.{IsStale, decision-IsStale, fresh_decision, should_skip-calm}

-- Does the write side hold the event as unfired?
abbrev pub pending_on_write_side : ℕ → World → Bool
pending_on_write_side id w = exists_where (λ ev. has_id id ev && is_pending ev) w.db.events

-- The world in which the rows with an id have the clock's time as the one they were fired at, and say
-- whether that was late, and nothing else has changed.
abbrev pub marked : ℕ → Bool → World → World
marked id was_late w = record w {
  db = record w.db {
    events =
        update_where (λ (ev : SchedulerEvent). ev.id == id)
          (λ ev. record ev { fired_at = some w.now; was_late = was_late }) w.db.events;
  };
}

module _ (actions : Actions) (ev : SchedulerEvent) (late : Bool) where
  -- If the query for the event on the write side fails, or finds the event fired or gone, then the
  -- event is left alone: no handler runs and nothing is written, whatever a stale reader said.
  pub fire_event_not_pending :
      (w : World)
      → (next_fault w.faults ≡ true) ⊎ (pending_on_write_side ev.id w ≡ false)
      → fire_event actions ev late w ≡ (ok tt, tick w)
  unfolding fire_event on_pending is_event_pending query_write attempt pure ◌>>=◌
  fire_event_not_pending w h = ground arith

  logged_mark :
      (was_late : Bool) (w : World)
      → logged (mark_event_fired ev.id was_late) (calm w) ≡ (ok tt, marked ev.id was_late (calm w))
  unfolding logged mark_event_fired fire_row exec attempt pure raise get_now ◌>>=◌
  logged_mark was_late w = ground arith

  fire_pending :
      (w : World)
      → pending_on_write_side ev.id w ≡ true
      → fire_event actions ev late (calm w) ≡ act_on actions ev late (calm w)
  unfolding fire_event on_pending is_event_pending query_write attempt pure ◌>>=◌
  fire_pending w h = ground arith

  module _ (w : World) (k : ℕ) (iss : Issue) (g : Group)
      (pending : pending_on_write_side ev.id w ≡ true) (has : ev.issue_id ≡ some k)
      (found : first_where (is_issue k) (view w).issues ≡ some iss)
      (owner : first_where (is_group iss.group_id) (view w).groups ≡ some g) where
    archived_lem : is_archived ev.issue_id (calm w) ≡ (ok (not g.is_active), calm w)
    unfolding is_archived is_issue_archived get_issue_by_id get_group query attempt pure ◌>>=◌
    archived_lem = ground arith

    -- With a healthy driver, an event that the write side holds as unfired, and whose round and Loop
    -- the reader finds, is marked fired if that Loop is archived: no handler runs, nothing else changes.
    pub fire_event_archived :
        g.is_active ≡ false
        → fire_event actions ev late (calm w) ≡ (ok tt, marked ev.id late (calm w))
    unfolding act_on ◌>>=◌
    fire_event_archived off =
        ground (arith, fire_pending w pending, archived_lem, logged_mark late w)

    -- With a healthy driver, an event that the write side holds as unfired, and whose round and Loop
    -- the reader finds, is marked fired and late if that Loop is active and the event stale: no
    -- handler runs, nothing else changes.
    pub fire_event_stale :
        g.is_active ≡ true
        → IsStale ev iss w.now
        → fire_event actions ev late (calm w) ≡ (ok tt, marked ev.id true (calm w))
    unfolding act_on ◌>>=◌
    fire_event_stale on stale = ground (
      arith,
      fire_pending w pending,
      archived_lem,
      should_skip-calm ev k iss w has found,
      decision-IsStale ev iss w.now stale,
      logged_mark true w,
    )

    -- With a healthy driver, an event that the write side holds as unfired, that is not stale, and
    -- whose round and active Loop the reader finds, goes to its handler; if that fails, the event ends
    -- in the world that the handler left, unmarked, so that the next tick tries again.
    pub fire_event_retried :
        (e : Err)
        → g.is_active ≡ true
        → ¬ IsStale ev iss w.now
        → (run_handler actions ev ev.event_type ev.issue_id (calm w)).0 ≡ err e
        → fire_event actions ev late (calm w)
          ≡ (ok tt, (run_handler actions ev ev.event_type ev.issue_id (calm w)).1)
    unfolding act_on handle_event finish_event attempt pure ◌>>=◌
    fire_event_retried e on fresh failed = ground (
      arith,
      fire_pending w pending,
      archived_lem,
      should_skip-calm ev k iss w has found,
      fresh_decision ev iss w.now fresh,
    )

    -- With a healthy driver, an event that the write side holds as unfired, that is not stale, and
    -- whose round and active Loop the reader finds, goes to its handler; if that succeeds and leaves
    -- the driver healthy, the event is marked fired in the world that the handler left.
    pub fire_event_done :
        (w' : World)
        → g.is_active ≡ true
        → ¬ IsStale ev iss w.now
        → run_handler actions ev ev.event_type ev.issue_id (calm w) ≡ (ok tt, calm w')
        → fire_event actions ev late (calm w) ≡ (ok tt, marked ev.id late (calm w'))
    unfolding act_on handle_event finish_event attempt pure ◌>>=◌
    fire_event_done w' on fresh done = ground (
      arith,
      fire_pending w pending,
      archived_lem,
      should_skip-calm ev k iss w has found,
      fresh_decision ev iss w.now fresh,
      logged_mark late w',
    )
