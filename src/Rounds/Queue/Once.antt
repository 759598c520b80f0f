-- ===== src/Rounds/Queue/Once.antt =====
-- internal/server/actions.go: queueing the next round, and again.
use piecesoflife.Prelude.{
  ℕ, ◌≡◌, refl, sym, ap, subst, ◌∙◌, true, Option, none, some, arith, exists_where,
}
use piecesoflife.Prelude.Distinct.{exists_where-append}
use piecesoflife.Store.Rows.{Db, Issue, Settings, SchedulerEvent, create_next_issue}
use piecesoflife.Store.Exec.{
  Result, ok, World, Exec, tick, calm, pure, query, attempt, get_now, ◌>>=◌,
}
use piecesoflife.Store.Exec.Inversion.{bind_ok, exec_ok}
use piecesoflife.Store.Sql.{is_next_round, next_round_event, insert_event, new_event, add_event}
use piecesoflife.Store.Events.{
  create_scheduler_event, get_pending_next_round_event, delete_pending_group_events_by_type,
}
use piecesoflife.Store.Issues.{get_next_draft_issue}
use piecesoflife.Scheduler.{logged}
use piecesoflife.Rounds.{Calendar, settings_location}
use piecesoflife.Rounds.Queue.{
  ensure_next_draft, cadence_next_open, queue_afresh, unless_queued, queue_steps,
  queue_next_issue_event,
}
use piecesoflife.Rounds.Queue.Draft.{
  HasDraft, earliest-exists, exists-earliest, delete_frozen, drafts_in_view, ensured,
}

inserted :
    (k at now : ℕ) (db d : Db)
    → insert_event (some k) create_next_issue at now db ≡ ok (tt, d)
    → d ≡ add_event db (some k) create_next_issue at now
unfolding insert_event
inserted k at now db d h = ground arith

added_queues :
    (g k at now : ℕ) (db : Db)
    → HasDraft g k db
    → exists_where
        (is_next_round (add_event db (some k) create_next_issue at now) g)
        (add_event db (some k) create_next_issue at now).events
      ≡ true
added_queues g k at now db draft = ground (
  arith,
  draft,
  exists_where-append (is_next_round db g) db.events
      (new_event db (some k) create_next_issue at now),
)

-- The group has an event queued for a draft of its own.
abbrev pub IsQueued : ℕ → Db → Type 0
IsQueued g db = exists_where (is_next_round db g) db.events ≡ true

event_queues :
    (g k at : ℕ) (w : World)
    → HasDraft g k w.db
    → (create_scheduler_event (some k) create_next_issue at w).0 ≡ ok tt
    → IsQueued g (create_scheduler_event (some k) create_next_issue at w).1.db
unfolding create_scheduler_event get_now ◌>>=◌
event_queues g k at w draft h =
    let (d, stmt, is_d) = exec_ok (insert_event (some k) create_next_issue at w.now) w h in
    subst (IsQueued g) (sym (is_d ∙ inserted k at w.now w.db d stmt))
      (added_queues g k at w.now w.db draft)

module _ {Zone : Type 0} (cal : Calendar Zone) (st : Settings) where
  abbrev queue_rest : ℕ → Exec (Unit {0})
  queue_rest t = do
    now ← get_now
    existing ← get_next_draft_issue st.group_id
    draft ←
        ensure_next_draft cal st (settings_location cal (some st)) now
          (cadence_next_open cal now t st.frequency (settings_location cal (some st))) existing
    create_scheduler_event (some draft.0) create_next_issue draft.1

  queue_afresh-IsQueued :
      (t : ℕ) (w : World)
      → w.frozen ≡ none
      → (queue_afresh cal st t w).0 ≡ ok tt
      → IsQueued st.group_id (queue_afresh cal st t w).1.db
  unfolding queue_afresh get_now ◌>>=◌
  queue_afresh-IsQueued t w fresh h =
      let loc = settings_location cal (some st) in
      let clear = delete_pending_group_events_by_type st.group_id (some create_next_issue) in
      let w1 = (clear w).1 in
      let now = w1.now in
      let slot = cadence_next_open cal now t st.frequency loc in
      let put : ℕ × ℕ → Exec (Unit {0}) =
        λ r. create_scheduler_event (some r.0) create_next_issue r.1 in
      let prepare : Option Issue → Exec (ℕ × ℕ) = ensure_next_draft cal st loc now slot in
      let (n, cleared, run1) = bind_ok clear (λ n. queue_rest t) w h in
      let h1 = ap (λ p. p.0) (sym run1) ∙ h in
      let (found, looked, run2) =
        bind_ok (get_next_draft_issue st.group_id) (λ found. prepare found >>= put) w1 h1 in
      let w2 = (get_next_draft_issue st.group_id w1).1 in
      let h2 = ap (λ p. p.0) (sym run2) ∙ h1 in
      let (r, prepared, run3) = bind_ok (prepare found) put w2 h2 in
      let w3 = (prepare found w2).1 in
      let h3 = ap (λ p. p.0) (sym run3) ∙ h2 in
      let draft =
        ensured cal st loc now slot found r w2
          (λ d is.
            drafts_in_view st.group_id w1 found d
              (delete_frozen st.group_id (some create_next_issue) w ∙ fresh) looked is)
          prepared in
      subst (λ (p : Result (Unit {0}) × World). IsQueued st.group_id p.1.db)
        (sym (run1 ∙ run2 ∙ run3)) (event_queues st.group_id r.0 r.1 w3 draft h3)

  seen-IsQueued :
      (w : World) (ev : SchedulerEvent)
      → w.frozen ≡ none
      → (get_pending_next_round_event st.group_id w).0 ≡ ok (some ev)
      → IsQueued st.group_id w.db
  unfolding get_pending_next_round_event next_round_event query
  seen-IsQueued w ev fresh h =
      earliest-exists (is_next_round w.db st.group_id) (λ _. true) (λ e. e.scheduled_at) w.db.events
        ev (ground (arith, h, fresh)) refl

  pending_same : (w : World) → (get_pending_next_round_event st.group_id w).1 ≡ tick w
  unfolding get_pending_next_round_event query
  pending_same w = refl

  unless_queued-IsQueued :
      (t : ℕ) (w : World) (found : Option SchedulerEvent)
      → w.frozen ≡ none
      → ((ev : SchedulerEvent) → found ≡ some ev → IsQueued st.group_id w.db)
      → (unless_queued cal st t found w).0 ≡ ok tt
      → IsQueued st.group_id (unless_queued cal st t found w).1.db
  unfolding unless_queued pure
  unless_queued-IsQueued t w none fresh seen h = queue_afresh-IsQueued t w fresh h
  unless_queued-IsQueued t w (some ev) fresh seen h = seen ev refl

  queue_steps-IsQueued :
      (t : ℕ) (w : World)
      → w.frozen ≡ none
      → (queue_steps cal st t w).0 ≡ ok tt
      → IsQueued st.group_id (queue_steps cal st t w).1.db
  unfolding queue_steps
  queue_steps-IsQueued t w fresh h =
      let look = get_pending_next_round_event st.group_id in
      let (found, looked, run) = bind_ok look (unless_queued cal st t) w h in
      let same = pending_same w in
      subst (λ (p : Result (Unit {0}) × World). IsQueued st.group_id p.1.db) (sym run)
        (unless_queued-IsQueued t (look w).1 found (ap (λ v. v.frozen) same ∙ fresh)
          (λ ev is.
            subst (λ v. IsQueued st.group_id v.db) (sym same)
              (seen-IsQueued w ev fresh (looked ∙ ap ok is)))
          (ap (λ p. p.0) (sym run) ∙ h))

  queued_idle :
      (t : ℕ) (v : World) (ev : SchedulerEvent)
      → v.frozen ≡ none
      → next_round_event st.group_id v.db ≡ some ev
      → queue_next_issue_event cal st t (calm v) ≡ (ok tt, calm v)
  unfolding queue_next_issue_event queue_steps logged unless_queued get_pending_next_round_event
      query attempt pure ◌>>=◌
  queued_idle t v ev fresh is = ground (arith, fresh, is)

  has_next_round :
      (db : Db)
      → IsQueued st.group_id db
      → (ev : SchedulerEvent) × (next_round_event st.group_id db ≡ some ev)
  unfolding next_round_event
  has_next_round db h =
      exists-earliest (is_next_round db st.group_id) (λ e. e.scheduled_at) db.events h

  -- Where the readers are up to date and no step of the queueing fails, the group has an opening queued
  -- for a draft of its own afterwards; and on that database, with a healthy driver and readers up to
  -- date, queueing again changes nothing, at any time and after any edition.
  pub queue_next_issue_event_once :
      (t : ℕ) (w : World)
      → w.frozen ≡ none
      → (queue_steps cal st t w).0 ≡ ok tt
      → IsQueued st.group_id (queue_steps cal st t w).1.db
        × ((v : World) (t' : ℕ)
            → v.frozen ≡ none
            → v.db ≡ (queue_steps cal st t w).1.db
            → queue_next_issue_event cal st t' (calm v) ≡ (ok tt, calm v))
  queue_next_issue_event_once t w fresh h =
      let queued = queue_steps-IsQueued t w fresh h in
      (
        queued,
        λ v t' up_to_date same.
            let (ev, is) = has_next_round v.db (subst (IsQueued st.group_id) (sym same) queued) in
            queued_idle t' v ev up_to_date is,
      )
