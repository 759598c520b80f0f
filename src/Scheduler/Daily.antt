-- ===== src/Scheduler/Daily.antt =====
-- internal/scheduler/scheduler.go, scheduleDailyCleanup: the daily events.
use piecesoflife.Prelude.{
  ℕ, ◌+◌, ◌%◌, ◌≤◌, ◌<◌, ◌≡◌, refl, Bool, true, none, List, [], ◌∷◌, arith, ==_refl, exists_where,
  All, Bool-cases, inl, inr,
}
use piecesoflife.Prelude.Distinct.{exists_where-append}
use piecesoflife.Store.Rows.{
  Db, EventType, token_cleanup, session_cleanup, comment_digest, type_code, is_known_type,
}
use piecesoflife.Store.Exec.{ok, World, calm, attempt, pure, exec, get_now, ◌>>=◌}
use piecesoflife.Store.Sql.{same_key, new_event, add_event}
use piecesoflife.Store.Events.{insert_or_ignore, ensure_daily_event}
use piecesoflife.Scheduler.{logged, next_midnight, ensure_all, schedule_daily_cleanup}

-- Is the daily event there, fired or not?
abbrev pub is_queued : ℕ → EventType → Db → Bool
is_queued midnight t db = exists_where (same_key none t midnight) db.events

abbrev after_ensure : ℕ → EventType → World → World
after_ensure midnight t w = (logged (ensure_daily_event t midnight) (calm w)).1

-- A database that has the daily events is left alone.
ensure_known :
    (midnight : ℕ) (t : EventType) (w : World)
    → is_queued midnight t w.db ≡ true
    → logged (ensure_daily_event t midnight) (calm w) ≡ (ok tt, calm w)
unfolding logged ensure_daily_event insert_or_ignore exec attempt pure get_now ◌>>=◌
ensure_known midnight t w h = ground arith

ensure_queues :
    (midnight : ℕ) (t : EventType) (w : World)
    → is_known_type t ≡ true
    → (v : World) × (logged (ensure_daily_event t midnight) (calm w) ≡ (ok tt, calm v))
      × (is_queued midnight t v.db ≡ true)
      × ((s : EventType) → is_queued midnight s w.db ≡ true → is_queued midnight s v.db ≡ true)
      × (v.now ≡ w.now)
unfolding logged ensure_daily_event insert_or_ignore exec attempt pure get_now ◌>>=◌
ensure_queues midnight t w known = elim (Bool-cases (is_queued midnight t w.db)) [
  | inl e ↦ (w, ground arith, e, (λ s h. h), refl)
  | inr e ↦ (
    record w { db = add_event w.db none t midnight w.now },
    ground arith,
    ground (
      arith,
      exists_where-append (same_key none t midnight) w.db.events
          (new_event w.db none t midnight w.now),
      ==_refl midnight,
      ==_refl (type_code t),
    ),
    (λ s h. ground (
      arith,
      h,
      exists_where-append (same_key none s midnight) w.db.events
          (new_event w.db none t midnight w.now),
    )),
    refl,
  )
]

ensure_all_known :
    (midnight : ℕ) (ts : List EventType) (w : World)
    → All (λ t. is_queued midnight t w.db ≡ true) ts
    → ensure_all midnight ts (calm w) ≡ (ok tt, calm w)
unfolding ensure_all pure ◌>>=◌
ensure_all_known midnight [] w h = refl
ensure_all_known midnight (t ∷ ts) w h =
    ground (arith, ensure_known midnight t w h.0, ensure_all_known midnight ts w h.1)

ensure_all_queues :
    (midnight : ℕ) (ts : List EventType) (w : World)
    → All (λ t. is_known_type t ≡ true) ts
    → (v : World) × (ensure_all midnight ts (calm w) ≡ (ok tt, calm v))
      × All (λ t. is_queued midnight t v.db ≡ true) ts
      × ((s : EventType) → is_queued midnight s w.db ≡ true → is_queued midnight s v.db ≡ true)
unfolding ensure_all pure ◌>>=◌
ensure_all_queues midnight [] w known = (w, refl, tt, λ s h. h)
ensure_all_queues midnight (t ∷ ts) w known =
    let (u, first, own, kept, same) = ensure_queues midnight t w known.0 in
    let (v, rest, queued, later) = ensure_all_queues midnight ts u known.1 in
    (v, ground (arith, first, rest), (later t own, queued), λ s h. later s (kept s h))

abbrev pub daily_types : List EventType
daily_types = token_cleanup ∷ session_cleanup ∷ comment_digest ∷ []

same_midnight : (now t : ℕ) → now ≤ t → t < next_midnight now → next_midnight t ≡ next_midnight now
same_midnight now t h k = omega (arith, h, k)

abbrev at_time : ℕ → World → World
at_time t w = record (calm w) { now = t }

-- With a healthy driver the three daily events are queued for the coming midnight, the multiple of a
-- day that lies after now and at most a day ahead; and until then queueing them again, whenever and however often, changes nothing.
pub schedule_daily_cleanup_once :
    (w : World)
    → (v : World) × (schedule_daily_cleanup (calm w) ≡ (ok tt, calm v))
      × All (λ t. is_queued (next_midnight w.now) t v.db ≡ true) daily_types
      × (next_midnight w.now % 86400 ≡ 0)
      × (w.now < next_midnight w.now)
      × (next_midnight w.now ≤ w.now + 86400)
      × ((t : ℕ)
          → w.now ≤ t
          → t < next_midnight w.now
          → schedule_daily_cleanup (at_time t v) ≡ (ok tt, at_time t v))
unfolding schedule_daily_cleanup get_now ◌>>=◌
schedule_daily_cleanup_once w =
    let (v, run, queued, kept) =
      ensure_all_queues (next_midnight w.now) daily_types w (refl, (refl, (refl, tt))) in
    (
      v,
      run,
      queued,
      omega arith,
      omega arith,
      omega arith,
      λ t h k.
          rw (same_midnight w.now t h k)
            (ensure_all_known (next_midnight w.now) daily_types (at_time t v) queued),
    )
