-- ===== src/Rounds/Plan.antt =====
-- internal/server/actions.go and issues.go: a round's plan and its reschedule, for any calendar.
use piecesoflife.Prelude.{
  ℕ, ◌+◌, ◌≤◌, ◌≡◌, refl, sym, ap, subst, String, ◌∙◌, Bool, true, false, Option, List, [], ◌∷◌,
  ◌++◌, arith, All, Bool-cases, inl, inr, select, select-append,
}
use piecesoflife.Store.Rows.{Db, Issue, Settings, SchedulerEventSpec, auto_close, is_type}
use piecesoflife.Store.Exec.{Result, ok, err, World, pure, attempt, get_now, ◌>>=◌}
use piecesoflife.Store.Exec.Respects.{IsPreorder, Respects, respects_rules}
use piecesoflife.Store.Exec.Inversion.{bind_ok}
use piecesoflife.Store.Events.{has_recent_fired_reminder}
use piecesoflife.Store.Groups.{get_settings}
use piecesoflife.Store.Schedule.{apply_schedule}
use piecesoflife.Store.Schedule.Replaced.{pending_specs, IsMoved, apply_schedule_replaces_events}
use piecesoflife.Rounds.{
  Calendar, keep_event, soon_left_out, email_slots, immediate, with_immediate, settings_or_none,
  deadline_update, issue_event_specs, rescheduled_specs, rescheduled_issue_event_specs,
  reschedule_issue_deadline,
}

-- The close of a round at a time.
abbrev pub close_at : ℕ → SchedulerEventSpec
close_at time = record { event_type = auto_close; scheduled_at = time }

abbrev pub is_close : SchedulerEventSpec → Bool
is_close spec = is_type spec.event_type auto_close

-- An email of a round, with at least 12 hours to go.
abbrev pub IsTimelyEmail : ℕ → SchedulerEventSpec → Type 0
IsTimelyEmail now spec = (is_close spec ≡ false) × (now + 43200 ≤ spec.scheduled_at)

slots_left :
    (now : ℕ) (specs : List SchedulerEventSpec)
    → All (λ spec. is_close spec ≡ false) specs
    → All (IsTimelyEmail now) (soon_left_out now specs)
      × (select is_close (soon_left_out now specs) ≡ [])
unfolding soon_left_out
slots_left now [] h = (tt, refl)
slots_left now (spec ∷ specs) h =
    let (timely, none_closes) = slots_left now specs h.1 in
    elim (Bool-cases (keep_event now spec)) [
      | inl e ↦ rw e (((h.0, ground (arith, e)), timely), ground (arith, h.0, none_closes))
      | inr e ↦ rw e (timely, none_closes)
    ]

-- The database stays as it is.
abbrev Same : Db → Db → Type 0
Same d e = e ≡ d

Same-preorder : IsPreorder Same
Same-preorder = record { same = λ d. refl; chain = λ d e f h k. k ∙ h }

get_settings-Reads : (group_id : ℕ) → Respects Same (attempt (get_settings group_id))
unfolding get_settings
get_settings-Reads group_id = search (respects_rules, Same-preorder)

module _ {Zone : Type 0} (cal : Calendar Zone) where
  slots_open :
      (settings : Option Settings) (deadline : ℕ) (own : Zone)
      → All (λ spec. is_close spec ≡ false) (email_slots cal settings deadline own)
  unfolding email_slots
  slots_open settings deadline own = (refl, (refl, (refl, tt)))

  -- Whatever the calendar, the plan of a round is some emails, each of which comes at least 12 hours
  -- from now, and then the close at the deadline; it is the only close.
  pub issue_event_specs_plan :
      (now deadline : ℕ) (settings : Option Settings) (own : Zone)
      → (emails : List SchedulerEventSpec) × (issue_event_specs cal now settings deadline own
          ≡ emails ++ close_at deadline ∷ [])
        × All (IsTimelyEmail now) emails
        × (select is_close (issue_event_specs cal now settings deadline own)
            ≡ close_at deadline ∷ [])
  unfolding issue_event_specs
  issue_event_specs_plan now deadline settings own =
      let emails = soon_left_out now (email_slots cal settings deadline own) in
      let (timely, none_closes) =
        slots_left now (email_slots cal settings deadline own) (slots_open settings deadline own) in
      (
        emails,
        refl,
        timely,
        select-append is_close emails (close_at deadline ∷ [])
            ∙ ap (λ l. l ++ close_at deadline ∷ []) none_closes,
      )

  plan_closes :
      (now deadline : ℕ) (settings : Option Settings) (own : Zone)
      → select is_close (issue_event_specs cal now settings deadline own) ≡ close_at deadline ∷ []
  plan_closes now deadline settings own =
      let (emails, shape, timely, closes) = issue_event_specs_plan now deadline settings own in
      closes

  more_closes :
      (now deadline : ℕ) (settings : Option Settings) (own : Zone)
      → select is_close (issue_event_specs cal now settings deadline own ++ immediate now ∷ [])
        ≡ close_at deadline ∷ []
  more_closes now deadline settings own =
      select-append is_close (issue_event_specs cal now settings deadline own) (immediate now ∷ [])
      ∙ ap (λ l. l ++ []) (plan_closes now deadline settings own)

  recent_closes :
      (now deadline : ℕ) (settings : Option Settings) (own : Zone) (recent : Result Bool)
      → select is_close
          (with_immediate now (issue_event_specs cal now settings deadline own) recent)
        ≡ close_at deadline ∷ []
  unfolding with_immediate
  recent_closes now deadline settings own (err e) = plan_closes now deadline settings own
  recent_closes now deadline settings own (ok true) = plan_closes now deadline settings own
  recent_closes now deadline settings own (ok false) = more_closes now deadline settings own

  -- Whether or not a reminder is added, the new plan closes once, at the new deadline.
  specs_close :
      (settings : Option Settings) (k old_deadline deadline : ℕ) (own : Zone) (now : ℕ) (w : World)
      (events : List SchedulerEventSpec)
      → (rescheduled_specs cal settings k old_deadline deadline own now w).0 ≡ ok events
      → select is_close events ≡ close_at deadline ∷ []
  unfolding rescheduled_specs attempt pure ◌>>=◌
  specs_close settings k old_deadline deadline own now w events h = ground (
    arith,
    h,
    more_closes now deadline settings own,
    plan_closes now deadline settings own,
    recent_closes now deadline settings own (has_recent_fired_reminder k w).0,
  )

  later_specs_close :
      (settings : Option Settings) (k old_deadline deadline : ℕ) (own : Zone) (w : World)
      (events : List SchedulerEventSpec)
      → (rescheduled_issue_event_specs cal settings k old_deadline deadline own w).0 ≡ ok events
      → select is_close events ≡ close_at deadline ∷ []
  unfolding rescheduled_issue_event_specs get_now ◌>>=◌
  later_specs_close settings k old_deadline deadline own w events h =
      specs_close settings k old_deadline deadline own w.now w events h

  specs-Reads :
      (settings : Option Settings) (k old_deadline deadline : ℕ) (own : Zone) (now : ℕ)
      → Respects Same (rescheduled_specs cal settings k old_deadline deadline own now)
  unfolding rescheduled_specs has_recent_fired_reminder
  specs-Reads settings k old_deadline deadline own now =
      search (respects_rules, Same-preorder) depth 12

  later_specs-Reads :
      (settings : Option Settings) (k old_deadline deadline : ℕ) (own : Zone) (w : World)
      → (rescheduled_issue_event_specs cal settings k old_deadline deadline own w).1.db ≡ w.db
  unfolding rescheduled_issue_event_specs get_now ◌>>=◌
  later_specs-Reads settings k old_deadline deadline own w =
      (specs-Reads settings k old_deadline deadline own w.now).at w

  -- Moving a round's deadline, where it succeeds, has moved the round, which was the one collecting
  -- round of its group with its id, to the new deadline, and to the new title if one is given; no
  -- other round has changed, and exactly one unfired close is left for it, at that deadline.
  pub reschedule_issue_deadline_closes :
      (iss : Issue) (deadline : ℕ) (own : Zone) (title : Option String) (w : World)
      → (reschedule_issue_deadline cal iss deadline own title w).0 ≡ ok tt
      → let db = (reschedule_issue_deadline cal iss deadline own title w).1.db in
        (select is_close (pending_specs iss.id db) ≡ close_at deadline ∷ [])
        × IsMoved iss.id iss.group_id deadline title w.db db
  unfolding reschedule_issue_deadline pure
  reschedule_issue_deadline_closes iss deadline own title w h =
      let specs = λ (r : Result Settings).
        rescheduled_issue_event_specs cal (settings_or_none r) iss.id iss.deadline deadline own in
      let save = λ (events : List SchedulerEventSpec).
        apply_schedule (deadline_update iss deadline title events) in
      let end = λ (d : Option ℕ). pure (tt {0}) in
      let (r, got, run1) =
        bind_ok (attempt (get_settings iss.group_id))
          (λ r. specs r >>= λ events. save events >>= end) w h in
      let w1 = (attempt (get_settings iss.group_id) w).1 in
      let h1 = ap (λ p. p.0) (sym run1) ∙ h in
      let (events, planned, run2) = bind_ok (specs r) (λ events. save events >>= end) w1 h1 in
      let w2 = (specs r w1).1 in
      let h2 = ap (λ p. p.0) (sym run2) ∙ h1 in
      let (d, saved, run3) = bind_ok (save events) end w2 h2 in
      let (pending, moved) =
        apply_schedule_replaces_events (deadline_update iss deadline title events) w2 iss.id
          deadline d refl refl refl saved in
      let closes =
        later_specs_close (settings_or_none r) iss.id iss.deadline deadline own w1 events planned in
      let over = ap (λ p. p.1.db) (run1 ∙ run2 ∙ run3) in
      let read : w2.db ≡ w.db =
        later_specs-Reads (settings_or_none r) iss.id iss.deadline deadline own w1
        ∙ (get_settings-Reads iss.group_id).at w in
      (
        ap (λ db. select is_close (pending_specs iss.id db)) over
            ∙ ap (select is_close) pending
            ∙ closes,
        subst (IsMoved iss.id iss.group_id deadline title w.db) (sym over) (
            subst (λ d. IsMoved iss.id iss.group_id deadline title d (save events w2).1.db) read
              moved),
      )
