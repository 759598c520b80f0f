-- ===== src/Store/Schedule/Replaced.antt =====
-- internal/store/scheduler.go, ApplySchedule on the live round alone: its events before and after.
use mathlib.Core.List.{map-append, append-nil, append_assoc}
use piecesoflife.Prelude.{
  ℕ, String, ◌≡◌, refl, sym, ap, subst, ◌∙◌, Bool, Option, none, some, List, [], ◌∷◌, ◌++◌, map,
  arith, select, update_where, count_where, ==_refl, ◌==◌, ◌&&◌, is_none, holds_id, select-append,
  select-delete_where,
}
use piecesoflife.Store.Rows.{
  Db, Issue, SchedulerEvent, SchedulerEventSpec, EventType, is_collecting,
}
use piecesoflife.Store.Exec.{ok, World, Exec, tick, pure, raise, exec, query_write, ◌>>=◌, ◌>>◌}
use piecesoflife.Store.Exec.Respects.{
  IsPreorder, Respects, Respects-exec, Respects-bind, respects_rules, Grants, grants_rules,
}
use piecesoflife.Store.Exec.Inversion.{bind_ok, exec_ok}
use piecesoflife.Store.Sql.{is_pending_of_issue, insert_event, delete_events, add_event}
use piecesoflife.Store.Issues.{expect_one, update_issues, update_one_issue, insert_events}
use piecesoflife.Store.Schedule.{
  ScheduleUpdate, check_overlap, is_collecting_of_group, move_deadline, apply_current, apply_next,
  schedule_body, apply_schedule, clear_of_pinned,
}
use piecesoflife.Store.Schedule.Effects.{body_ok, insert_event_ok}

abbrev pub to_spec : SchedulerEvent → SchedulerEventSpec
to_spec ev = record { event_type = ev.event_type; scheduled_at = ev.scheduled_at }

-- The unfired events of an issue, as specs, oldest row first.
abbrev pub pending_specs : ℕ → Db → List SchedulerEventSpec
pending_specs issue_id db = map to_spec (
    select (λ (ev : SchedulerEvent). holds_id ev.issue_id issue_id && is_none ev.fired_at)
      db.events)

pending_specs-add_event :
    (k : ℕ) (event_type : EventType) (at now : ℕ) (db : Db)
    → pending_specs k (add_event db (some k) event_type at now)
      ≡ pending_specs k db ++ record { event_type = event_type; scheduled_at = at } ∷ []
pending_specs-add_event k event_type at now db = simp (select-append, ==_refl, map-append)

insert_events_ok :
    (k now : ℕ) (specs : List SchedulerEventSpec) (w : World)
    → (insert_events k now specs w).0 ≡ ok tt
    → pending_specs k (insert_events k now specs w).1.db ≡ pending_specs k w.db ++ specs
unfolding insert_events pure
insert_events_ok k now [] w h = sym (append-nil _)
insert_events_ok k now (spec ∷ specs) w h =
    let insert = exec (insert_event (some k) spec.event_type spec.scheduled_at now) in
    let (u, inserted, run) = bind_ok insert (λ _. insert_events k now specs) w h in
    let (d, stmt, is_d) =
      exec_ok (insert_event (some k) spec.event_type spec.scheduled_at now) w inserted in
    let added : pending_specs k (insert w).1.db ≡ pending_specs k w.db ++ spec ∷ [] =
      ap (pending_specs k)
        (is_d ∙ insert_event_ok (some k) spec.event_type spec.scheduled_at now w.db d stmt)
      ∙ pending_specs-add_event k spec.event_type spec.scheduled_at now w.db in
    let rest = insert_events_ok k now specs (insert w).1 (ap (λ p. p.0) (sym run) ∙ h) in
    ap (λ p. pending_specs k p.1.db) run
    ∙ rest
    ∙ ap (λ l. l ++ specs) added
    ∙ append_assoc (pending_specs k w.db) (spec ∷ []) specs

delete_events_ok :
    (k : ℕ) (db d : Db)
    → delete_events (is_pending_of_issue k) db ≡ ok (tt, d)
    → pending_specs k d ≡ []
unfolding delete_events
delete_events_ok k db d h = ground (arith, select-delete_where (is_pending_of_issue k) db.events)

-- After the first half of the transaction the round's pending events are the given ones.
pub apply_current_ok :
    (update : ScheduleUpdate) (now k deadline : ℕ) (w : World)
    → (apply_current update now (some k) (some deadline) w).0 ≡ ok tt
    → pending_specs k (apply_current update now (some k) (some deadline) w).1.db
      ≡ update.current_events
unfolding apply_current
apply_current_ok update now k deadline w h =
    let move =
      update_one_issue (is_collecting_of_group k update.group_id)
        (move_deadline deadline update.current_title) in
    let clear = exec (delete_events (is_pending_of_issue k)) in
    let (u, moved, run1) =
      bind_ok move (λ _. clear >> insert_events k now update.current_events) w h in
    let w1 = (move w).1 in
    let h1 = ap (λ p. p.0) (sym run1) ∙ h in
    let (v, cleared, run2) = bind_ok clear (λ _. insert_events k now update.current_events) w1 h1 in
    let (d, stmt, is_d) = exec_ok (delete_events (is_pending_of_issue k)) w1 cleared in
    let inserted =
      insert_events_ok k now update.current_events (clear w1).1 (ap (λ p. p.0) (sym run2) ∙ h1) in
    ap (λ p. pending_specs k p.1.db) (run1 ∙ run2)
    ∙ inserted
    ∙ ap (λ l. l ++ update.current_events)
        (ap (pending_specs k) is_d ∙ delete_events_ok k w1.db d stmt)

-- The issues are not touched.
abbrev SameIssues : Db → Db → Type 0
SameIssues d e = e.issues ≡ d.issues

SameIssues-preorder : IsPreorder SameIssues
SameIssues-preorder = record { same = λ d. refl; chain = λ d e f p q. q ∙ p }

same_rows : (d e : Db) → e.issues ≡ d.issues → SameIssues d e
same_rows d e h = h

insert_event-SameIssues :
    (issue_id : Option ℕ) (event_type : EventType) (at now : ℕ) (db : Db)
    → Grants SameIssues db (insert_event issue_id event_type at now db)
unfolding insert_event
insert_event-SameIssues issue_id event_type at now db =
    search (grants_rules, same_rows db, refl) depth 9

delete_events-SameIssues :
    (p : SchedulerEvent → Bool) (db : Db) → Grants SameIssues db (delete_events p db)
unfolding delete_events
delete_events-SameIssues p db = search (grants_rules, same_rows db, refl) depth 9

ruleset issue_rules = (
  respects_rules, SameIssues-preorder, Respects-exec, insert_event-SameIssues,
  delete_events-SameIssues,
)

insert_events-SameIssues :
    (k now : ℕ) (specs : List SchedulerEventSpec) → Respects SameIssues (insert_events k now specs)
unfolding insert_events
insert_events-SameIssues k now [] = search issue_rules
insert_events-SameIssues k now (spec ∷ specs) =
    Respects-bind SameIssues-preorder
      (exec (insert_event (some k) spec.event_type spec.scheduled_at now))
      (λ _. insert_events k now specs) (search issue_rules)
      (λ _. insert_events-SameIssues k now specs)

-- The collecting round of a group with this id.
abbrev pub is_live_round : (k group_id : ℕ) → Issue → Bool
is_live_round k group_id iss = iss.id == k && iss.group_id == group_id && is_collecting iss.status

abbrev pub with_title : Option String → Option String → Option String
with_title none old = old
with_title (some title) old = some title

-- The round, which was the one collecting round of the group with its id, has the new deadline, and
-- the title if one is given; it collects on, and no other round has changed.
pub record IsMoved (k group_id deadline : ℕ) (title : Option String) (d e : Db) : Type 0 where
  pub was_live : count_where (is_live_round k group_id) d.issues ≡ 1
  pub is_moved :
      e.issues
      ≡ update_where
          (is_live_round k group_id)
          (λ iss. record iss { title = with_title title iss.title; deadline = deadline })
          d.issues

update_one_issue_ok :
    (p : Issue → Bool) (f : Issue → Issue) (w : World)
    → (update_one_issue p f w).0 ≡ ok tt
    → (count_where p w.db.issues ≡ 1)
      × ((update_one_issue p f w).1.db.issues ≡ update_where p f w.db.issues)
unfolding update_one_issue update_issues expect_one exec pure raise ◌>>=◌
update_one_issue_ok p f w h = ground arith

apply_current-IsMoved :
    (update : ScheduleUpdate) (now k deadline : ℕ) (w : World)
    → (apply_current update now (some k) (some deadline) w).0 ≡ ok tt
    → IsMoved k update.group_id deadline update.current_title w.db
        (apply_current update now (some k) (some deadline) w).1.db
unfolding apply_current
apply_current-IsMoved update now k deadline w h =
    let move =
      update_one_issue (is_collecting_of_group k update.group_id)
        (move_deadline deadline update.current_title) in
    let rest =
      exec (delete_events (is_pending_of_issue k)) >> insert_events k now update.current_events in
    let (u, moved, run) = bind_ok move (λ _. rest) w h in
    let kept : (rest (move w).1).1.db.issues ≡ (move w).1.db.issues =
      (Respects-bind SameIssues-preorder (exec (delete_events (is_pending_of_issue k)))
          (λ _. insert_events k now update.current_events) (search issue_rules)
          (λ _. insert_events-SameIssues k now update.current_events)).at
        (move w).1 in
    let (live, rows) =
      update_one_issue_ok (is_collecting_of_group k update.group_id)
        (move_deadline deadline update.current_title) w moved in
    record { was_live = live; is_moved = ap (λ p. p.1.db.issues) run ∙ kept ∙ rows }

abbrev no_draft : Exec (Option ℕ)
no_draft = pure none

abbrev alone : ScheduleUpdate → (now k deadline : ℕ) → Exec (Unit {0}) → Exec (Option ℕ)
alone update now k deadline check =
    check >> (apply_current update now (some k) (some deadline) >> no_draft)

IsMoved-alone :
    (update : ScheduleUpdate) (now k deadline : ℕ) (check : Exec (Unit {0})) (w : World)
    {r : Option ℕ}
    → (alone update now k deadline check w).0 ≡ ok r
    → (pending_specs k (alone update now k deadline check w).1.db ≡ update.current_events)
      × IsMoved k update.group_id deadline update.current_title
          (check w).1.db
          (alone update now k deadline check w).1.db
unfolding pure
IsMoved-alone update now k deadline check w h =
    let current = apply_current update now (some k) (some deadline) in
    let (u, checked, run1) = bind_ok check (λ _. current >> no_draft) w h in
    let w1 = (check w).1 in
    let h1 = ap (λ p. p.0) (sym run1) ∙ h in
    let (v, moved, run2) = bind_ok current (λ _. no_draft) w1 h1 in
    let end = run1 ∙ run2 in
    (
      ap (λ p. pending_specs k p.1.db) end ∙ apply_current_ok update now k deadline w1 moved,
      subst (λ p. IsMoved k update.group_id deadline update.current_title w1.db p.1.db) (sym end)
          (apply_current-IsMoved update now k deadline w1 moved),
    )

alone_shape :
    (update : ScheduleUpdate) (now k deadline : ℕ)
    (current_id current_deadline opening closing : Option ℕ)
    → current_id ≡ some k
    → current_deadline ≡ some deadline
    → opening ≡ none
    → (check_overlap update.group_id current_deadline opening
        >> (apply_current update now current_id current_deadline
            >> apply_next update now opening closing))
      ≡ alone update now k deadline (check_overlap update.group_id (some deadline) none)
unfolding apply_next
alone_shape update now k deadline (some i) (some d) none closing is_k is_d no_next = cc
alone_shape update now k deadline none _ _ closing is_k is_d no_next = cc
alone_shape update now k deadline (some i) none _ closing is_k is_d no_next = cc
alone_shape update now k deadline (some i) (some d) (some o) closing is_k is_d no_next = cc

-- The check of the queued next round only reads.
check_reads :
    (group_id deadline : ℕ) (w : World)
    → (check_overlap group_id (some deadline) none w).1.db ≡ w.db
unfolding check_overlap clear_of_pinned pure raise query_write ◌>>=◌
check_reads group_id deadline w = ground arith

-- A successful update of the live round alone has moved the round, which was the one collecting round
-- of the group with its id, to the new deadline, and to the new title if one is given; the round
-- collects on, no other round has changed, and exactly the given lifecycle events are pending for it,
-- in their order: no old reminder or close survives.
pub apply_schedule_replaces_events :
    (update : ScheduleUpdate) (w : World) (k deadline : ℕ) (r : Option ℕ)
    → update.current_issue_id ≡ some k
    → update.current_deadline ≡ some deadline
    → update.next_open ≡ none
    → (apply_schedule update w).0 ≡ ok r
    → (pending_specs k (apply_schedule update w).1.db ≡ update.current_events)
      × IsMoved k update.group_id deadline update.current_title w.db (apply_schedule update w).1.db
unfolding schedule_body
apply_schedule_replaces_events update w k deadline r is_k is_d no_next h =
    let (whole, whole', ran, over) = body_ok update w h in
    let shape =
      ap (λ m. m (tick w))
        (alone_shape update w.now k deadline update.current_issue_id update.current_deadline
          update.next_open update.next_close is_k is_d no_next) in
    let moved =
      IsMoved-alone update w.now k deadline (check_overlap update.group_id (some deadline) none)
        (tick w) (ap (λ p. p.0) (sym shape) ∙ ran) in
    let checked =
      alone update w.now k deadline (check_overlap update.group_id (some deadline) none) in
    let end = over ∙ ap (λ p. p.1.db) shape in
    (
      ap (pending_specs k) end ∙ moved.0,
      subst (λ e. IsMoved k update.group_id deadline update.current_title w.db e) (sym end)
          (subst
            (λ d. IsMoved k update.group_id deadline update.current_title d (checked (tick w)).1.db)
            (check_reads update.group_id deadline (tick w)) moved.1),
    )
