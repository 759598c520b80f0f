-- ===== src/Scheduler/Fire/Once.antt =====
-- internal/scheduler/scheduler.go, fireEvent: firing an event, and again.
use piecesoflife.Prelude.{
  ℕ, ◌≡◌, refl, ◌⊎◌, inl, inr, Bool, true, false, ◌&&◌, some, List, [], ◌∷◌, arith, exists_where,
  first_where, update_where, Bool-cases,
}
use piecesoflife.Store.Rows.{Issue, Group, SchedulerEvent}
use piecesoflife.Store.Exec.{ok, World, view, tick, calm}
use piecesoflife.Store.Sql.{is_pending}
use piecesoflife.Store.Events.{has_id, fire}
use piecesoflife.Store.Issues.{is_issue}
use piecesoflife.Store.Groups.{is_group}
use piecesoflife.Scheduler.{Actions, run_handler, fire_event}
use piecesoflife.Scheduler.Skip.{IsStale, IsStale-cases}
use piecesoflife.Scheduler.Fire.{
  pending_on_write_side, marked, fire_event_not_pending, fire_event_archived, fire_event_stale,
  fire_event_done,
}

none_pending :
    (id now : ℕ) (was_late : Bool) (evs : List SchedulerEvent)
    → exists_where
        (λ ev. has_id id ev && is_pending ev)
        (update_where (has_id id) (fire now was_late) evs)
      ≡ false
none_pending id now was_late [] = refl
none_pending id now was_late (ev ∷ evs) = ground (arith, none_pending id now was_late evs)

module _ (actions : Actions) (ev : SchedulerEvent) (late : Bool) (w : World) where
  -- Where firing has ended in a world in which the event is marked, firing it again does nothing.
  again :
      (was_late retry : Bool) (u : World)
      → fire_event actions ev late (calm w) ≡ (ok tt, marked ev.id was_late u)
      → fire_event actions ev retry (fire_event actions ev late (calm w)).1
        ≡ (ok tt, tick (fire_event actions ev late (calm w)).1)
  again was_late retry u run = rw run (
      fire_event_not_pending actions ev retry (marked ev.id was_late u)
        (inr (none_pending ev.id u.now was_late u.db.events)))

  -- With a healthy driver, take an event that the write side holds as unfired, and whose round and
  -- Loop the reader finds, and fire it. If the Loop is archived, the event stale, or the handler
  -- succeeds and leaves the driver healthy, then firing it a second time runs no handler and writes
  -- nothing, even if a reader's old snapshot lists it as overdue again.
  pub fire_event_once :
      (k : ℕ) (iss : Issue) (g : Group) (retry : Bool)
      → pending_on_write_side ev.id w ≡ true
      → ev.issue_id ≡ some k
      → first_where (is_issue k) (view w).issues ≡ some iss
      → first_where (is_group iss.group_id) (view w).groups ≡ some g
      → (g.is_active ≡ false)
        ⊎ IsStale ev iss w.now
        ⊎ ((w' : World) × (run_handler actions ev ev.event_type ev.issue_id (calm w)
              ≡ (ok tt, calm w')))
      → fire_event actions ev retry (fire_event actions ev late (calm w)).1
        ≡ (ok tt, tick (fire_event actions ev late (calm w)).1)
  fire_event_once k iss g retry pending has found owner why = elim (Bool-cases g.is_active) [
    | inr off ↦
        again late retry (calm w)
          (fire_event_archived actions ev late w k iss g pending has found owner off)
    | inl on ↦ elim (IsStale-cases ev iss w.now) [
      | inl stale ↦
          again true retry (calm w)
            (fire_event_stale actions ev late w k iss g pending has found owner on stale)
      | inr fresh ↦ elim why [
        | inl off ↦ cc
        | inr (inl stale) ↦ absurd (fresh stale)
        | inr (inr (w', done)) ↦
            again late retry (calm w')
              (fire_event_done actions ev late w k iss g pending has found owner w' on fresh done)
      ]
    ]
  ]
