-- ===== src/Store/Schedule/Effects.antt =====
-- internal/store/scheduler.go, ApplySchedule: its errors, and its check for overlaps.
use mathlib.Core.Bool.{xor}
use piecesoflife.Prelude.{
  ℕ, ◌≡◌, subst, ◌&&◌, ◌==◌, ==_refl, holds_id, is_none, exists_where, refl, sym, ap, ◌∙◌, Bool,
  true, false, Option, none, some, arith, if◌then◌else◌,
}
use piecesoflife.Store.Rows.{Db, SchedulerEvent, EventType, create_next_issue, is_type}
use piecesoflife.Store.Exec.{
  Err, ok, err, World, Exec, tick, pure, raise, exec, get_now, ◌>>◌, transaction, ◌>>=◌,
}
use piecesoflife.Store.Exec.Inversion.{bind_rest, exec_ok, transaction_err, transaction_ok}
use piecesoflife.Prelude.Distinct.{exists_where-append}
use piecesoflife.Store.Sql.{insert_event, new_event, add_event}
use piecesoflife.Store.Schedule.{ScheduleUpdate, apply_next, schedule_body, is_half, apply_schedule}

guarded_err :
    (b c : Bool) (m : Exec (Option ℕ)) (w : World) {e : Err}
    → ((e' : Err) → (m w).0 ≡ err e' → (m w).1.db ≡ w.db)
    → ((if b then raise Err.invalid_update else if c then raise Err.invalid_update else m) w).0
      ≡ err e
    → ((if b then raise Err.invalid_update else if c then raise Err.invalid_update else m) w).1.db
      ≡ w.db
unfolding raise
guarded_err true c m w k h = refl
guarded_err false true m w k h = refl
guarded_err false false m w {e} k h = k e h

pub update_err :
    (update : ScheduleUpdate) (w : World) (e : Err)
    → (apply_schedule update w).0 ≡ err e
    → (apply_schedule update w).1.db ≡ w.db
unfolding apply_schedule get_now ◌>>=◌
update_err update w e h =
    guarded_err (is_half update.current_issue_id update.current_deadline)
      (is_half update.next_open update.next_close) (λ v. transaction (schedule_body update v.now) v)
      w (λ e' k. transaction_err (schedule_body update w.now) w k) h

guarded_ok :
    (b c : Bool) (m : Exec (Option ℕ)) (w : World) {r : Option ℕ}
    → ((if b then raise Err.invalid_update else if c then raise Err.invalid_update else m) w).0
      ≡ ok r
    → (b ≡ false)
      × (c ≡ false)
      × ((if b then raise Err.invalid_update else if c then raise Err.invalid_update else m) w
          ≡ m w)
unfolding raise
guarded_ok true c m w h = cc
guarded_ok false true m w h = cc
guarded_ok false false m w h = (refl, refl, refl)

module _ (update : ScheduleUpdate) (w : World) {r : Option ℕ} where
  -- A success has whole halves, and is a success of the transaction's body.
  pub body_ok :
      (apply_schedule update w).0 ≡ ok r
      → (is_half update.current_issue_id update.current_deadline ≡ false)
        × (is_half update.next_open update.next_close ≡ false)
        × ((schedule_body update w.now (tick w)).0 ≡ ok r)
        × ((apply_schedule update w).1.db ≡ (schedule_body update w.now (tick w)).1.db)
  unfolding apply_schedule get_now ◌>>=◌
  body_ok h =
      let (whole, whole', run) =
        guarded_ok (is_half update.current_issue_id update.current_deadline)
          (is_half update.next_open update.next_close)
          (λ v. transaction (schedule_body update v.now) v) w h in
      let done = transaction_ok (schedule_body update w.now) w (ap (λ p. p.0) (sym run) ∙ h) in
      (whole, whole', done.0, ap (λ p. p.1.db) run ∙ done.1)

pub insert_event_ok :
    (issue_id : Option ℕ) (event_type : EventType) (at now : ℕ) (db d : Db)
    → insert_event issue_id event_type at now db ≡ ok (tt, d)
    → d ≡ add_event db issue_id event_type at now
unfolding insert_event
insert_event_ok issue_id event_type at now db d h = ground arith

-- The unfired opening of an issue at a time.
abbrev pub is_opening : ℕ → ℕ → SchedulerEvent → Bool
is_opening issue_id time ev =
    holds_id ev.issue_id issue_id
    && is_type ev.event_type create_next_issue
    && ev.scheduled_at == time
    && is_none ev.fired_at

-- What a successful update says of the next round: without an opening there is no draft, and with one
-- there is the draft whose opening is queued at that time.
abbrev pub IsQueuedFor : Option ℕ → Option ℕ → Db → Type 0
IsQueuedFor none draft_id db = draft_id ≡ none
IsQueuedFor (some opening) none db = ⊥
IsQueuedFor (some opening) (some id) db = exists_where (is_opening id opening) db.events ≡ true

opening_added :
    (id opening now : ℕ) (db : Db)
    → exists_where
        (is_opening id opening)
        (add_event db (some id) create_next_issue opening now).events
      ≡ true
opening_added id opening now db = ground (
  arith,
  exists_where-append (is_opening id opening) db.events
      (new_event db (some id) create_next_issue opening now),
  ==_refl id,
  ==_refl opening,
)

ok_same {ℓ} : {A : Type ℓ} (a b : A) → ok a ≡ ok b → a ≡ b
ok_same a b h = cc

no_next :
    (update : ScheduleUpdate) (now : ℕ) (w : World) (r : Option ℕ)
    → (apply_next update now none none w).0 ≡ ok r
    → r ≡ none
unfolding apply_next pure
no_next update now w r h = sym (ok_same none r h)

-- The last statement of the second half.
opening_queued :
    (id opening now : ℕ) (w : World) (r : Option ℕ)
    → ((do exec (insert_event (some id) create_next_issue opening now); pure (some id)) w).0 ≡ ok r
    → IsQueuedFor
        (some opening)
        r
        ((do exec (insert_event (some id) create_next_issue opening now); pure (some id)) w).1.db
unfolding pure
opening_queued id opening now w r h =
    let insert = exec (insert_event (some id) create_next_issue opening now) in
    let (z, inserted, h1, p1) = bind_rest insert (λ _. pure (some id)) w r h in
    let (e, stmt, is_e) =
      exec_ok (insert_event (some id) create_next_issue opening now) w inserted in
    let total =
      ap (λ u. u.db) p1
      ∙ is_e
      ∙ insert_event_ok (some id) create_next_issue opening now w.db e stmt in
    subst (λ q. IsQueuedFor (some opening) q ((insert >>= λ _. pure (some id)) w).1.db)
      (ok_same (some id) r h1)
      (subst (λ db. exists_where (is_opening id opening) db.events ≡ true) (sym total)
        (opening_added id opening now w.db))

apply_next_queues :
    (update : ScheduleUpdate) (now opening close : ℕ) (w : World) (r : Option ℕ)
    → (apply_next update now (some opening) (some close) w).0 ≡ ok r
    → IsQueuedFor (some opening) r (apply_next update now (some opening) (some close) w).1.db
unfolding apply_next pure
apply_next_queues update now opening close w r h =
    let (n, x1, h1, p1) = bind_rest _ _ w r h in
    let (u, x2, h2, p2) = bind_rest _ _ _ r h1 in
    let (v, x3, h3, p3) = bind_rest _ _ _ r h2 in
    let (d, x4, h4, p4) = bind_rest _ _ _ r h3 in
    let (label, x5, h5, p5) = bind_rest _ _ _ r h4 in
    let (id, x6, h6, p6) = bind_rest _ _ _ r h5 in
    subst (IsQueuedFor (some opening) r) (sym (ap (λ u. u.db) (p1 ∙ p2 ∙ p3 ∙ p4 ∙ p5 ∙ p6)))
      (opening_queued id opening now _ r h6)

pub next_half :
    (update : ScheduleUpdate) (now : ℕ) (opening close : Option ℕ) (w : World) (r : Option ℕ)
    → is_half opening close ≡ false
    → (apply_next update now opening close w).0 ≡ ok r
    → IsQueuedFor opening r (apply_next update now opening close w).1.db
unfolding xor
next_half update now (some opening) (some close) w r whole h =
    apply_next_queues update now opening close w r h
next_half update now (some opening) none w r whole h = absurd (cc)
next_half update now none (some close) w r whole h = absurd (cc)
next_half update now none none w r whole h = no_next update now w r h
