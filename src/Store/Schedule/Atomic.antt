-- ===== src/Store/Schedule/Atomic.antt =====
-- internal/store/scheduler.go, ApplySchedule: all of it or nothing.
use mathlib.Core.Bool.{xor}
use piecesoflife.Prelude.{
  ℕ, ◌≡◌, ◌⊎◌, inl, inr, refl, sym, ap, subst, ◌∙◌, Bool, true, false, ◌||◌, ◌&&◌, ◌==◌, ==_refl,
  Option, none, some, List, [], ◌∷◌, map, All, arith, is_none, holds_id, select, exists_where,
  Bool-cases,
}
use piecesoflife.Store.Rows.{
  Db, SchedulerEvent, SchedulerEventSpec, create_next_issue, is_type, type_code,
}
use piecesoflife.Store.Exec.{Err, Result, ok, err, World, Exec, tick}
use piecesoflife.Store.Exec.Inversion.{bind_rest}
use piecesoflife.Store.Schedule.{
  ScheduleUpdate, check_overlap, apply_current, apply_next, schedule_body, is_half, apply_schedule,
}
use piecesoflife.Store.Schedule.Effects.{body_ok, update_err, IsQueuedFor, next_half}
use piecesoflife.Store.Schedule.Replaced.{to_spec, apply_current_ok}
use piecesoflife.Store.Schedule.Kept.{apply_next-Stay}

-- The unfired event of an issue that a spec describes.
abbrev pub is_queued_at : ℕ → SchedulerEventSpec → SchedulerEvent → Bool
is_queued_at issue_id spec ev =
    holds_id ev.issue_id issue_id
    && is_type ev.event_type spec.event_type
    && ev.scheduled_at == spec.scheduled_at
    && is_none ev.fired_at

-- Each of the round's new events is queued. An opening is no event of a collecting round, and nothing
-- is said of it.
abbrev pub IsReplaced : Option ℕ → List SchedulerEventSpec → Db → Type 0
IsReplaced none specs db = Unit
IsReplaced (some issue_id) specs db =
    All
      (λ spec.
        (is_type spec.event_type create_next_issue
          || exists_where (is_queued_at issue_id spec) db.events)
        ≡ true)
      specs

or_second : (a b : Bool) → b ≡ true → (a || b) ≡ true
or_second a b h = ground arith

All-later :
    (k : ℕ) (x : SchedulerEvent) (xs : List SchedulerEvent) (specs : List SchedulerEventSpec)
    → All (λ spec. exists_where (is_queued_at k spec) xs ≡ true) specs
    → All (λ spec. exists_where (is_queued_at k spec) (x ∷ xs) ≡ true) specs
All-later k x xs [] h = tt
All-later k x xs (spec ∷ specs) h = (or_second _ _ h.0, All-later k x xs specs h.1)

own_spec :
    (k : ℕ) (x : SchedulerEvent) (xs : List SchedulerEvent)
    → (holds_id x.issue_id k && is_none x.fired_at) ≡ true
    → exists_where (is_queued_at k (to_spec x)) (x ∷ xs) ≡ true
own_spec k x xs h = ground (arith, h, ==_refl (type_code x.event_type), ==_refl x.scheduled_at)

pending_queued :
    (k : ℕ) (xs : List SchedulerEvent)
    → All
        (λ spec. exists_where (is_queued_at k spec) xs ≡ true)
        (map to_spec
          (select (λ (ev : SchedulerEvent). holds_id ev.issue_id k && is_none ev.fired_at) xs))
pending_queued k [] = tt
pending_queued k (x ∷ xs) = elim (Bool-cases (holds_id x.issue_id k && is_none x.fired_at)) [
  | inl hit ↦ rw hit (own_spec k x xs hit, All-later k x xs _ (pending_queued k xs))
  | inr miss ↦ rw miss (All-later k x xs _ (pending_queued k xs))
]

other_type :
    (k : ℕ) (spec : SchedulerEventSpec) (ev : SchedulerEvent)
    → is_type spec.event_type create_next_issue ≡ false
    → is_queued_at k spec ev ≡ true
    → is_type ev.event_type create_next_issue ≡ false
other_type k spec ev h hit = ground (arith, h, hit)

stays-IsReplaced :
    (k : ℕ) (specs : List SchedulerEventSpec) (next : Exec (Option ℕ)) (w : World)
    → ((spec : SchedulerEventSpec)
        → is_type spec.event_type create_next_issue ≡ false
        → exists_where (is_queued_at k spec) w.db.events ≡ true
        → exists_where (is_queued_at k spec) (next w).1.db.events ≡ true)
    → All (λ spec. exists_where (is_queued_at k spec) w.db.events ≡ true) specs
    → IsReplaced (some k) specs (next w).1.db
stays-IsReplaced k [] next w stay h = tt
stays-IsReplaced k (spec ∷ specs) next w stay h = (
  elim (Bool-cases (is_type spec.event_type create_next_issue)) [
    | inl opens ↦ rw opens refl
    | inr other ↦ or_second _ _ (stay spec other h.0)
  ],
  stays-IsReplaced k specs next w stay h.1,
)

-- Both halves in a row.
halves :
    (update : ScheduleUpdate) (now : ℕ) (current deadline : Option ℕ) (w : World)
    → is_half current deadline ≡ false
    → (apply_current update now current deadline w).0 ≡ ok tt
    → IsReplaced current update.current_events
        (apply_next update now update.next_open update.next_close
          (apply_current update now current deadline w).1).1.db
unfolding xor
halves update now none d w whole h = tt
halves update now (some k) none w whole h = absurd (let wrong : true ≡ false = whole in cc)
halves update now (some k) (some d) w whole h =
    let v : World = (apply_current update now (some k) (some d) w).1 in
    let next = apply_next update now update.next_open update.next_close in
    stays-IsReplaced k update.current_events next v
      (λ spec other.
        (apply_next-Stay (is_queued_at k spec) (λ ev hit. other_type k spec ev other hit) update now
            update.next_open update.next_close).at
          v)
      (subst (λ specs. All (λ spec. exists_where (is_queued_at k spec) v.db.events ≡ true) specs)
        (apply_current_ok update now k d w h) (pending_queued k v.db.events))

Result-cases {ℓ} : {A : Type ℓ} (r : Result A) → ((e : Err) × (r ≡ err e)) ⊎ ((a : A) × (r ≡ ok a))
Result-cases (ok a) = inr (a, refl)
Result-cases (err e) = inl (e, refl)

body_committed :
    (update : ScheduleUpdate) (now : ℕ) (w : World) (r : Option ℕ)
    → is_half update.current_issue_id update.current_deadline ≡ false
    → is_half update.next_open update.next_close ≡ false
    → (schedule_body update now w).0 ≡ ok r
    → IsReplaced update.current_issue_id update.current_events (schedule_body update now w).1.db
      × IsQueuedFor update.next_open r (schedule_body update now w).1.db
unfolding schedule_body
body_committed update now w r whole whole' h =
    let (u, x1, h1, p1) = bind_rest (check_overlap _ _ _) _ w r h in
    let (v, x2, h2, p2) = bind_rest (apply_current _ _ _ _) _ _ r h1 in
    let over = sym (ap (λ u. u.db) (p1 ∙ p2)) in
    (
      subst (IsReplaced update.current_issue_id update.current_events) over
          (halves update now update.current_issue_id update.current_deadline _ whole x2),
      subst (IsQueuedFor update.next_open r) over
          (next_half update now update.next_open update.next_close _ r whole' h2),
    )

-- A schedule update is one step. Either it fails, at whatever statement and for whatever reason, and
-- has written nothing; or it succeeds, and then every replacement is there: each of the given events
-- of the live round, if one is given, is queued and unfired, the openings aside; and with an opening
-- the update gives the draft of the next round, whose opening is queued at that time and unfired, and
-- without one it gives no draft.
pub apply_schedule_atomic :
    (update : ScheduleUpdate) (w : World)
    → ((e : Err) × ((apply_schedule update w).0 ≡ err e) × ((apply_schedule update w).1.db ≡ w.db))
      ⊎ ((r : Option ℕ) × ((apply_schedule update w).0 ≡ ok r)
          × IsReplaced update.current_issue_id update.current_events (apply_schedule update w).1.db
          × IsQueuedFor update.next_open r (apply_schedule update w).1.db)
apply_schedule_atomic update w = elim (Result-cases (apply_schedule update w).0) [
  | inl (e, failed) ↦ inl (e, failed, update_err update w e failed)
  | inr (r, did) ↦
      let (whole, whole', ran, over) = body_ok update w did in
      let (replaced, queued) = body_committed update w.now (tick w) r whole whole' ran in
      inr (
        r,
        did,
        subst (IsReplaced update.current_issue_id update.current_events) (sym over) replaced,
        subst (IsQueuedFor update.next_open r) (sym over) queued,
      )
]
