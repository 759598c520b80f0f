-- ===== src/Rounds/Queue.antt =====
-- internal/server/actions.go: the queueing of the next round, and the sweep that repairs it.
pub mod Times
pub mod Draft
pub mod Once
use piecesoflife.Prelude.{
  ℕ, ◌+◌, ◌*◌, Bool, true, false, not, ◌||◌, Option, none, some, List, [], ◌∷◌, ltb, leb,
  if◌then◌else◌,
}
use piecesoflife.Store.Rows.{
  Issue, Settings, Frequency, biweekly, monthly, quarterly, SchedulerEvent, create_next_issue,
  published,
}
use piecesoflife.Store.Exec.{Result, ok, err, Exec, pure, attempt, get_now, ◌>>=◌, ◌>>◌}
use piecesoflife.Store.Events.{
  create_scheduler_event, get_pending_next_round_event, delete_pending_group_events_by_type,
}
use piecesoflife.Store.Issues.{
  create_issue, get_next_draft_issue, has_collecting_issue, update_issue_schedule, list_issues,
}
use piecesoflife.Store.Labels.{next_available_issue_label}
use piecesoflife.Store.Groups.{GroupOverview, get_settings, list_group_overviews}
use piecesoflife.Scheduler.{logged}
use piecesoflife.Rounds.{Civil, Calendar, settings_location, at_local_hour, default_deadline}

-- A label, or the base month where the walk fails.
abbrev pub label_or_base : ℕ → ℕ → Result (ℕ × ℕ) → ℕ × ℕ
label_or_base base_month base_year (ok label) = label
label_or_base base_month base_year (err e) = (base_month, base_year)

unfoldable pub issue_label : ℕ → ℕ → ℕ → ℕ → Exec (ℕ × ℕ)
issue_label group_id exclude_id base_month base_year = do
  label ← attempt (next_available_issue_label group_id exclude_id base_month base_year)
  pure (label_or_base base_month base_year label)

abbrev pub earlier_of : ℕ → ℕ → ℕ
earlier_of a b = if ltb b a then b else a

module _ {Zone : Type 0} (cal : Calendar Zone) where
  -- The first of the month that lies `months` ahead, at the same time of day.
  abbrev pub target_month : Zone → ℕ → ℕ → ℕ
  target_month own months t =
      cal.date own (record (cal.civil own t) { month = (cal.civil own t).month + months; day = 1 })

  -- Day 0 of the month after the given instant's, which is the last day of its month.
  abbrev pub last_day : Zone → ℕ → ℕ → ℕ
  last_day own t target =
      (cal.civil own (
        cal.date own (record (cal.civil own t) {
          year = (cal.civil own target).year;
          month = (cal.civil own target).month + 1;
          day = 0;
        }))).day

  unfoldable pub add_months_clamped : Zone → ℕ → ℕ → ℕ
  add_months_clamped own t months =
      let target = target_month own months t in
      cal.date own (record (cal.civil own t) {
        year = (cal.civil own target).year;
        month = (cal.civil own target).month;
        day = earlier_of (cal.civil own t).day (last_day own t target);
      })

  unfoldable pub cadence_slot : Zone → ℕ → Frequency → ℕ
  cadence_slot own current_open biweekly = cal.add_days own current_open 14
  cadence_slot own current_open quarterly = add_months_clamped own current_open 3
  cadence_slot own current_open monthly = add_months_clamped own current_open 1

  unfoldable pub next_issue_open_time : ℕ → Frequency → ℕ → ℕ
  next_issue_open_time current_open frequency now =
      let next = cadence_slot cal.stored current_open frequency in
      if ltb next (now + 86400) then now + 172800 else next

  unfoldable pub cadence_next_open : ℕ → ℕ → Frequency → Zone → ℕ
  cadence_next_open now last_opens_at frequency loc =
      let next = at_local_hour cal (next_issue_open_time last_opens_at frequency now) 9 loc in
      if ltb next (now + 43200) then at_local_hour cal (cal.add_days loc next 1) 9 loc else next

  -- A fresh draft for the slot.
  unfoldable pub create_next_draft : Settings → Zone → ℕ → Exec ℕ
  create_next_draft settings loc next_open = do
    label ←
        issue_label settings.group_id 0 (cal.civil loc next_open).month
          (cal.civil loc next_open).year
    create_issue settings.group_id none label.0 label.1 next_open
        (default_deadline cal next_open settings loc)

  -- A stale draft is moved to the slot.
  unfoldable pub re_anchor_draft : Settings → Zone → Issue → ℕ → Exec (Unit {0})
  re_anchor_draft settings loc draft next_open = do
    label ←
        issue_label settings.group_id draft.id (cal.civil loc next_open).month
          (cal.civil loc next_open).year
    update_issue_schedule draft.id label.0 label.1 next_open
        (default_deadline cal next_open settings loc)

  -- The draft to open, and when.
  unfoldable pub ensure_next_draft : Settings → Zone → ℕ → ℕ → Option Issue → Exec (ℕ × ℕ)
  ensure_next_draft settings loc now next_open none = do
    draft_id ← create_next_draft settings loc next_open
    pure (draft_id, next_open)
  ensure_next_draft settings loc now next_open (some draft) =
      if ltb (now + 43200) draft.opens_at
      then pure (draft.id, draft.opens_at)
      else do re_anchor_draft settings loc draft next_open; pure (draft.id, next_open)

  -- With no event queued for a draft.
  unfoldable pub queue_afresh : Settings → ℕ → Exec (Unit {0})
  queue_afresh settings last_opens_at = do
    n ← delete_pending_group_events_by_type settings.group_id (some create_next_issue)
    now ← get_now
    existing ← get_next_draft_issue settings.group_id
    draft ←
        ensure_next_draft settings (settings_location cal (some settings)) now
          (cadence_next_open now last_opens_at settings.frequency
            (settings_location cal (some settings)))
          existing
    create_scheduler_event (some draft.0) create_next_issue draft.1

  unfoldable pub unless_queued : Settings → ℕ → Option SchedulerEvent → Exec (Unit {0})
  unless_queued settings last_opens_at (some ev) = pure tt
  unless_queued settings last_opens_at none = queue_afresh settings last_opens_at

  unfoldable pub queue_steps : Settings → ℕ → Exec (Unit {0})
  queue_steps settings last_opens_at = do
    queued ← get_pending_next_round_event settings.group_id
    unless_queued settings last_opens_at queued

  -- Every failure is logged and ends the queueing.
  unfoldable pub queue_next_issue_event : Settings → ℕ → Exec (Unit {0})
  queue_next_issue_event settings last_opens_at = logged (queue_steps settings last_opens_at)

  -- From the latest edition, if there is one.
  unfoldable pub continue_from : Settings → List Issue → Exec (Unit {0})
  continue_from settings [] = pure tt
  continue_from settings (latest ∷ older) = queue_next_issue_event settings latest.opens_at

  unfoldable pub unless_pending : Settings → Option SchedulerEvent → Exec (Unit {0})
  unless_pending settings (some ev) = pure tt
  unless_pending settings none = do
    editions ← list_issues settings.group_id (some published)
    continue_from settings editions

  unfoldable pub reconcile_idle : Settings → Exec (Unit {0})
  reconcile_idle settings = do
    queued ← get_pending_next_round_event settings.group_id
    unless_pending settings queued

  unfoldable pub reconcile_settings : Settings → Exec (Unit {0})
  reconcile_settings settings = if not settings.auto_create_enabled then pure tt else do
    collecting ← has_collecting_issue settings.group_id
    if collecting then pure tt else reconcile_idle settings

  unfoldable pub reconcile_group : GroupOverview → Exec (Unit {0})
  reconcile_group ov =
      if not ov.is_active || not ov.setup_complete
      then pure tt
      else do settings ← get_settings ov.id; reconcile_settings settings

  -- A failure in one Loop does not stop the sweep.
  unfoldable pub reconcile_groups : List GroupOverview → Exec (Unit {0})
  reconcile_groups [] = pure tt
  reconcile_groups (ov ∷ ovs) = do logged (reconcile_group ov); reconcile_groups ovs

  unfoldable pub reconcile_auto_create : Exec (Unit {0})
  reconcile_auto_create = do loops ← list_group_overviews; reconcile_groups loops
