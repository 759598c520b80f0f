-- ===== src/Store/Events/Requeue.antt =====
-- RequeueIssueEvents: what a reopened round is left with.
use mathlib.Core.Bool.{false≢true}
use piecesoflife.Prelude.{
  ℕ, ◌≡◌, refl, sym, ap, subst, ◌∙◌, Bool, true, false, ◌&&◌, ◌||◌, some, List, [], ◌∷◌, ◌++◌,
  arith, All, exists_where, delete_where, update_where, ==_refl, Bool-cases, inl, inr,
}
use piecesoflife.Prelude.Distinct.{exists_where-append, All-append}
use piecesoflife.Store.Rows.{Db, SchedulerEvent, SchedulerEventSpec, type_code}
use piecesoflife.Store.Exec.{
  ok, err, foreign_key_violation, World, tick, calm, pure, exec, query_write, get_now, transaction,
  framed, ◌>>=◌, ◌>>◌,
}
use piecesoflife.Store.Exec.Inversion.{bind_ok, exec_ok, transaction_ok}
use piecesoflife.Store.Sql.{
  is_pending, same_key, new_event, is_logged, delete_events, is_pending_of_issue,
}
use piecesoflife.Store.Events.{rearm, upsert_event, upsert_all, requeue_issue_events}

-- If an unfired event of the round is referenced by the email log, as it is after a reminder that
-- reached only some of its recipients, then requeueing the round's events is refused and changes
-- nothing.
pub requeue_issue_events_refused :
    (k : ℕ) (specs : List SchedulerEventSpec) (w : World)
    → exists_where (λ ev. is_pending_of_issue k ev && is_logged w.db ev) w.db.events ≡ true
    → requeue_issue_events k specs (calm w) ≡ (err foreign_key_violation, calm w)
unfolding requeue_issue_events transaction framed get_now query_write exec delete_events pure ◌>>=◌
requeue_issue_events_refused k specs w h = ground arith

-- Does the round have this event, unfired?
abbrev pub has_pending : ℕ → SchedulerEventSpec → Db → Bool
has_pending k spec db =
    exists_where (λ ev. same_key (some k) spec.event_type spec.scheduled_at ev && is_pending ev)
      db.events

-- Is the event one of the given ones?
abbrev pub is_one_of : ℕ → List SchedulerEventSpec → SchedulerEvent → Bool
is_one_of k specs ev =
    exists_where (λ spec. same_key (some k) spec.event_type spec.scheduled_at ev) specs

-- Every unfired event of the round passes the test.
abbrev pub AllPending : (SchedulerEvent → Bool) → ℕ → Db → Type 0
AllPending p k db = All (λ ev. is_pending_of_issue k ev ≡ true → p ev ≡ true) db.events

exists_where-rearm :
    (k : ℕ) (spec : SchedulerEventSpec) (q : SchedulerEvent → Bool) (evs : List SchedulerEvent)
    → exists_where
        (λ ev. same_key (some k) spec.event_type spec.scheduled_at ev && is_pending ev)
        evs
      ≡ true
    → exists_where
        (λ ev. same_key (some k) spec.event_type spec.scheduled_at ev && is_pending ev)
        (update_where q rearm evs)
      ≡ true
exists_where-rearm k spec q [] h = cc
exists_where-rearm k spec q (ev ∷ evs) h = ground (arith, exists_where-rearm k spec q evs)

rearmed :
    (q : SchedulerEvent → Bool) (evs : List SchedulerEvent)
    → ((ev : SchedulerEvent) → q (rearm ev) ≡ q ev)
    → exists_where q evs ≡ true
    → exists_where (λ ev. q ev && is_pending ev) (update_where q rearm evs) ≡ true
rearmed q [] same h = cc
rearmed q (ev ∷ evs) same h = ground (arith, same ev, rearmed q evs same)

upsert_event_ok :
    (k now : ℕ) (spec : SchedulerEventSpec) (db d : Db)
    → upsert_event k spec.event_type spec.scheduled_at now db ≡ ok (tt, d)
    → (has_pending k spec d ≡ true)
      × ((s : SchedulerEventSpec) → has_pending k s db ≡ true → has_pending k s d ≡ true)
unfolding upsert_event
upsert_event_ok k now spec db d h =
    let key = same_key (some k) spec.event_type spec.scheduled_at in
    let added = new_event db (some k) spec.event_type spec.scheduled_at now in
    let there = λ (s : SchedulerEventSpec) (ev : SchedulerEvent).
      same_key (some k) s.event_type s.scheduled_at ev && is_pending ev in
    elim (Bool-cases (exists_where key db.events)) [
      | inl e ↦ (
        ground (arith, h, e, rearmed key db.events (λ ev. refl) e),
        λ s before. ground (arith, h, e, exists_where-rearm k s key db.events before),
      )
      | inr e ↦ (
        ground (
          arith,
          h,
          e,
          ==_refl k,
          ==_refl (type_code spec.event_type),
          ==_refl spec.scheduled_at,
          exists_where-append (there spec) db.events added,
        ),
        λ s before. ground (arith, h, e, before, exists_where-append (there s) db.events added),
      )
    ]

upsert_event_old :
    (k now : ℕ) (spec : SchedulerEventSpec) (db d : Db)
    → upsert_event k spec.event_type spec.scheduled_at now db ≡ ok (tt, d)
    → exists_where (same_key (some k) spec.event_type spec.scheduled_at) db.events ≡ true
    → d.events ≡ update_where (same_key (some k) spec.event_type spec.scheduled_at) rearm db.events
unfolding upsert_event
upsert_event_old k now spec db d h e = ground arith

upsert_event_new :
    (k now : ℕ) (spec : SchedulerEventSpec) (db d : Db)
    → upsert_event k spec.event_type spec.scheduled_at now db ≡ ok (tt, d)
    → exists_where (same_key (some k) spec.event_type spec.scheduled_at) db.events ≡ false
    → d.events ≡ db.events ++ new_event db (some k) spec.event_type spec.scheduled_at now ∷ []
unfolding upsert_event
upsert_event_new k now spec db d h e = ground arith

-- From the one database the given events were put to the other: each is there and unfired, what was
-- unfired still is, and every unfired event of the round passes the test.
abbrev Leaves : (SchedulerEvent → Bool) → ℕ → List SchedulerEventSpec → Db → Db → Type 0
Leaves p k specs before d =
    AllPending p k d
    × All (λ spec. has_pending k spec d ≡ true) specs
    × ((s : SchedulerEventSpec) → has_pending k s before ≡ true → has_pending k s d ≡ true)

module _ (k : ℕ) (p : SchedulerEvent → Bool) where
  All-rearm :
      (q : SchedulerEvent → Bool) (evs : List SchedulerEvent)
      → ((ev : SchedulerEvent) → q ev ≡ true → p (rearm ev) ≡ true)
      → All (λ ev. is_pending_of_issue k ev ≡ true → p ev ≡ true) evs
      → All (λ ev. is_pending_of_issue k ev ≡ true → p ev ≡ true) (update_where q rearm evs)
  All-rearm q [] good h = tt
  All-rearm q (ev ∷ evs) good h = (
    elim (Bool-cases (q ev)) [ inl e ↦ rw e (λ _. good ev e) | inr e ↦ rw e h.0 ],
    All-rearm q evs good h.1,
  )

  upsert_event-AllPending :
      (now : ℕ) (spec : SchedulerEventSpec) (db d : Db)
      → ((ev : SchedulerEvent)
          → same_key (some k) spec.event_type spec.scheduled_at ev ≡ true
          → p ev ≡ true)
      → upsert_event k spec.event_type spec.scheduled_at now db ≡ ok (tt, d)
      → AllPending p k db
      → AllPending p k d
  upsert_event-AllPending now spec db d good h before =
      let key = same_key (some k) spec.event_type spec.scheduled_at in
      let added = new_event db (some k) spec.event_type spec.scheduled_at now in
      elim (Bool-cases (exists_where key db.events)) [
        | inl e ↦
            rw (upsert_event_old k now spec db d h e)
              (All-rearm key db.events (λ ev t. good (rearm ev) t) before)
        | inr e ↦ rw (upsert_event_new k now spec db d h e) (
            All-append (λ ev. is_pending_of_issue k ev ≡ true → p ev ≡ true) db.events added before
              (λ _. good added (
                ground (
                  arith,
                  ==_refl k,
                  ==_refl (type_code spec.event_type),
                  ==_refl spec.scheduled_at,
                ))))
      ]

  delete_events-AllPending :
      (evs : List SchedulerEvent)
      → All
          (λ ev. is_pending_of_issue k ev ≡ true → p ev ≡ true)
          (delete_where (is_pending_of_issue k) evs)
  delete_events-AllPending [] = tt
  delete_events-AllPending (ev ∷ evs) = elim (Bool-cases (is_pending_of_issue k ev)) [
    | inl e ↦ rw e (delete_events-AllPending evs)
    | inr e ↦ rw e ((λ t. absurd (false≢true (sym e ∙ t))), delete_events-AllPending evs)
  ]

  upsert_all_ok :
      (now : ℕ) (specs : List SchedulerEventSpec) (w : World)
      → All
          (λ spec.
            (ev : SchedulerEvent)
            → same_key (some k) spec.event_type spec.scheduled_at ev ≡ true
            → p ev ≡ true)
          specs
      → (upsert_all k now specs w).0 ≡ ok tt
      → AllPending p k w.db
      → Leaves p k specs w.db (upsert_all k now specs w).1.db
  unfolding upsert_all pure
  upsert_all_ok now [] w good h before = (before, tt, λ s t. t)
  upsert_all_ok now (spec ∷ specs) w good h before =
      let put = exec (upsert_event k spec.event_type spec.scheduled_at now) in
      let (u, done, run) = bind_ok put (λ _. upsert_all k now specs) w h in
      let (d, stmt, is_d) = exec_ok (upsert_event k spec.event_type spec.scheduled_at now) w done in
      let (own, kept) = upsert_event_ok k now spec w.db (put w).1.db (rw is_d stmt) in
      let (covered, rest, later) =
        upsert_all_ok now specs (put w).1 good.1 (ap (λ r. r.0) (sym run) ∙ h)
          (upsert_event-AllPending now spec w.db (put w).1.db good.0 (rw is_d stmt) before) in
      subst (λ r. Leaves p k (spec ∷ specs) w.db r.1.db) (sym run)
        (covered, (later spec own, rest), λ s t. later s (kept s t))

first_of : (a b : Bool) → a ≡ true → (a || b) ≡ true
first_of a b h = ground arith

second_of : (a b : Bool) → b ≡ true → (a || b) ≡ true
second_of a b h = ground arith

widened :
    (k : ℕ) (p q : SchedulerEvent → Bool) (specs : List SchedulerEventSpec)
    → ((ev : SchedulerEvent) → p ev ≡ true → q ev ≡ true)
    → All
        (λ spec.
          (ev : SchedulerEvent)
          → same_key (some k) spec.event_type spec.scheduled_at ev ≡ true
          → p ev ≡ true)
        specs
    → All
        (λ spec.
          (ev : SchedulerEvent)
          → same_key (some k) spec.event_type spec.scheduled_at ev ≡ true
          → q ev ≡ true)
        specs
widened k p q [] wide h = tt
widened k p q (spec ∷ specs) wide h = ((λ ev t. wide ev (h.0 ev t)), widened k p q specs wide h.1)

each_is_one :
    (k : ℕ) (specs : List SchedulerEventSpec)
    → All
        (λ spec.
          (ev : SchedulerEvent)
          → same_key (some k) spec.event_type spec.scheduled_at ev ≡ true
          → is_one_of k specs ev ≡ true)
        specs
each_is_one k [] = tt
each_is_one k (spec ∷ specs) = (
  (λ ev t.
      first_of (same_key (some k) spec.event_type spec.scheduled_at ev) (is_one_of k specs ev) t),
  widened k (is_one_of k specs) (is_one_of k (spec ∷ specs)) specs
      (λ ev t.
        second_of (same_key (some k) spec.event_type spec.scheduled_at ev) (is_one_of k specs ev) t)
      (each_is_one k specs),
)

cleared :
    (k : ℕ) (p : SchedulerEvent → Bool) (db d : Db)
    → delete_events (is_pending_of_issue k) db ≡ ok (tt, d)
    → AllPending p k d
unfolding delete_events
cleared k p db d h = ground (arith, h, delete_events-AllPending k p db.events)

requeued :
    (k now : ℕ) (specs : List SchedulerEventSpec) (w : World)
    → ((exec (delete_events (is_pending_of_issue k)) >> upsert_all k now specs) w).0 ≡ ok tt
    → (d : Db) × Leaves
        (is_one_of k specs)
        k
        specs
        d
        ((exec (delete_events (is_pending_of_issue k)) >> upsert_all k now specs) w).1.db
requeued k now specs w h =
    let clear = exec (delete_events (is_pending_of_issue k)) in
    let (u, done, run) = bind_ok clear (λ _. upsert_all k now specs) w h in
    let (d, stmt, is_d) = exec_ok (delete_events (is_pending_of_issue k)) w done in
    let v = (clear w).1 in
    (
      v.db,
      subst (λ r. Leaves (is_one_of k specs) k specs v.db r.1.db) (sym run)
          (upsert_all_ok k (is_one_of k specs) now specs v (each_is_one k specs)
            (ap (λ r. r.0) (sym run) ∙ h)
            (subst (AllPending (is_one_of k specs) k) (sym is_d)
              (cleared k (is_one_of k specs) w.db d stmt))),
    )

-- A requeueing that succeeds leaves exactly the given events unfired for the round: each of them is
-- there and unfired, also one that had fired before, and no other event of the round is unfired.
pub requeue_issue_events_exact :
    (k : ℕ) (specs : List SchedulerEventSpec) (w : World)
    → (requeue_issue_events k specs w).0 ≡ ok tt
    → AllPending (is_one_of k specs) k (requeue_issue_events k specs w).1.db
      × All (λ spec. has_pending k spec (requeue_issue_events k specs w).1.db ≡ true) specs
unfolding requeue_issue_events get_now transaction framed ◌>>=◌
requeue_issue_events_exact k specs w h =
    let body = exec (delete_events (is_pending_of_issue k)) >> upsert_all k w.now specs in
    let (ran, kept) = transaction_ok body w h in
    let (d, left) = requeued k w.now specs (tick w) ran in
    let (covered, there, still) = subst (Leaves (is_one_of k specs) k specs d) (sym kept) left in
    (covered, there)
