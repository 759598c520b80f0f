-- ===== src/Rounds/Opening.antt =====
-- internal/server/actions.go, issues.go and onboarding.go: how a round opens. The email that a
-- background goroutine sends is sent where the goroutine starts.
use piecesoflife.Prelude.{
  ℕ, suc, ◌+◌, ◌-◌, Bool, true, false, Option, none, some, List, [], ◌∷◌, ◌==◌, ltb, if◌then◌else◌,
  is_none, exists_where, length,
}
use piecesoflife.Store.Rows.{
  Issue, Settings, SchedulerEventSpec, open_email, pending, collecting, is_reminder, is_type,
  auto_close,
}
use piecesoflife.Store.Tables.{
  NotificationPreferences, Question, QuestionBank, DefaultQuestion, bank, default, is_default,
}
use piecesoflife.Store.Exec.{
  Err, Result, ok, err, no_rows, Exec, pure, raise, attempt, get_now, send_mail, ◌>>=◌, ◌>>◌,
}
use piecesoflife.Store.Events.{create_scheduler_event}
use piecesoflife.Store.Issues.{
  get_issue_by_id, get_next_draft_issue, has_collecting_issue, set_issue_status, create_issue,
  update_issue_schedule,
}
use piecesoflife.Store.Groups.{get_settings}
use piecesoflife.Store.Emails.{log_email}
use piecesoflife.Store.Questions.{create_question, list_questions_by_issue}
use piecesoflife.Store.Questions.Bank.{mark_bank_question_used}
use piecesoflife.Store.Questions.Defaults.{list_enabled_default_questions}
use piecesoflife.Store.Questions.Curation.{select_random_unused_questions}
use piecesoflife.Store.Members.{
  GroupMember, get_notification_preferences, list_active_group_members,
}
use piecesoflife.Scheduler.{logged}
use piecesoflife.Rounds.{Calendar, settings_location, default_deadline, issue_event_specs}
use piecesoflife.Rounds.Queue.{issue_label}
use piecesoflife.Rounds.Senders.{mint_email_cta_token, log_id_or_zero, mail_to, after_send}

-- How the loop over a round's events goes on after one of them.
unfoldable pub after_event : SchedulerEventSpec → ℕ → Result (Unit {0}) → Exec ℕ
after_event spec queued (err e) =
    if is_type spec.event_type auto_close then raise e else pure queued
after_event spec queued (ok u) = pure (if is_reminder spec.event_type then suc queued else queued)

unfoldable pub schedule_each : ℕ → ℕ → List SchedulerEventSpec → Exec ℕ
schedule_each issue_id queued [] = pure queued
schedule_each issue_id queued (spec ∷ specs) = do
  r ← attempt (create_scheduler_event (some issue_id) spec.event_type spec.scheduled_at)
  more ← after_event spec queued r
  schedule_each issue_id more specs

unfoldable pub add_each_default : ℕ → ℕ → ℕ → List DefaultQuestion → Exec ℕ
add_each_default issue_id sort_order added [] = pure added
add_each_default issue_id sort_order added (q ∷ qs) = do
  r ← attempt (create_question issue_id q.text none default none (sort_order + added))
  add_each_default issue_id sort_order (elim r [ ok id ↦ suc added | err e ↦ added ]) qs

unfoldable pub add_listed : ℕ → ℕ → Result (List DefaultQuestion) → Exec ℕ
add_listed issue_id sort_order (err e) = pure 0
add_listed issue_id sort_order (ok qs) = add_each_default issue_id sort_order 0 qs

-- How many questions were added.
unfoldable pub insert_default_questions : ℕ → ℕ → ℕ → Exec ℕ
insert_default_questions group_id issue_id sort_order = do
  r ← attempt (list_enabled_default_questions group_id)
  add_listed issue_id sort_order r

-- `fallbackQuestionsPerIssue`, where the settings have none
abbrev pub settings_target : Option Settings → ℕ
settings_target none = 6
settings_target (some settings) =
    if settings.questions_per_issue == 0 then 6 else settings.questions_per_issue

abbrev pub question_target : Option Settings → ℕ → ℕ
question_target settings requested = if requested == 0 then settings_target settings else requested

unfoldable pub mark_if_added : ℕ → Result ℕ → Exec (Unit {0})
mark_if_added bank_id (err e) = pure tt
mark_if_added bank_id (ok id) = logged (mark_bank_question_used bank_id)

unfoldable pub add_each_bank : ℕ → ℕ → List QuestionBank → Exec (Unit {0})
add_each_bank issue_id sort_order [] = pure tt
add_each_bank issue_id sort_order (q ∷ qs) = do
  r ← attempt (create_question issue_id q.text (some q.category) bank none sort_order)
  mark_if_added q.id r
  add_each_bank issue_id (suc sort_order) qs

abbrev pub rows_or_none {ℓ} : {A : Type ℓ} → Result (List A) → List A
rows_or_none (ok rows) = rows
rows_or_none (err e) = []

unfoldable pub pad_from_bank : ℕ → ℕ → ℕ → ℕ → Exec (Unit {0})
pad_from_bank group_id issue_id target next_order =
    if ltb next_order target
    then (do
      r ← attempt (select_random_unused_questions group_id (target - next_order))
      add_each_bank issue_id next_order (rows_or_none r))
    else pure tt

unfoldable pub order_after_defaults : ℕ → ℕ → List Question → Exec ℕ
order_after_defaults group_id issue_id existing =
    if exists_where (λ (q : Question). is_default q.source) existing
    then pure (length existing)
    else (do
      added ← insert_default_questions group_id issue_id (length existing)
      pure (length existing + added))

unfoldable pub populate : Option Settings → Issue → ℕ → Exec (Unit {0})
populate settings iss question_count = do
  existing ← attempt (list_questions_by_issue iss.id)
  next_order ← order_after_defaults iss.group_id iss.id (rows_or_none existing)
  pad_from_bank iss.group_id iss.id (question_target settings question_count) next_order

abbrev pub is_no_rows : Err → Bool
is_no_rows no_rows = true
is_no_rows _ = false

-- A member without a row of preferences is mailed; one whose row cannot be read is not.
abbrev pub allows : (NotificationPreferences → Bool) → Result NotificationPreferences → Bool
allows choice (err e) = is_no_rows e
allows choice (ok prefs) = choice prefs

unfoldable pub mail_open : Issue → ℕ → Exec (Unit {0})
mail_open iss user_id = do
  mint_email_cta_token user_id
  log ←
      attempt (log_email (some iss.group_id) (some user_id) (some iss.id) open_email pending false)
  r ← attempt (send_mail (mail_to user_id open_email iss.id))
  after_send (log_id_or_zero log) r

unfoldable pub send_issue_open_email : Issue → ℕ → Exec (Unit {0})
send_issue_open_email iss user_id = do
  prefs ← attempt (get_notification_preferences user_id)
  if allows (λ p. p.issue_open) prefs then logged (mail_open iss user_id) else pure tt

unfoldable pub mail_each_open : Issue → List GroupMember → Exec (Unit {0})
mail_each_open iss [] = pure tt
mail_each_open iss (m ∷ ms) = do send_issue_open_email iss m.user.id; mail_each_open iss ms

unfoldable pub announce : Issue → Exec (Unit {0})
announce iss = do
  questions ← attempt (list_questions_by_issue iss.id)
  members ← attempt (list_active_group_members iss.group_id)
  mail_each_open iss (rows_or_none members)

unfoldable pub make_transition : ℕ → Option (Exec (Unit {0})) → Exec (Unit {0})
make_transition issue_id none = set_issue_status issue_id collecting
make_transition issue_id (some transition) = transition

module _ {Zone : Type 0} (cal : Calendar Zone) where
  -- `own` is the location of the deadline.
  unfoldable pub schedule_issue_events : Option Settings → ℕ → ℕ → Zone → Exec ℕ
  schedule_issue_events settings issue_id deadline own = do
    now ← get_now
    schedule_each issue_id 0 (issue_event_specs cal now settings deadline own)

  unfoldable pub open_issue_for_collecting_with_transition :
      Option Settings → Issue → Zone → ℕ → Option (Exec (Unit {0})) → Bool → Exec (Unit {0})
  open_issue_for_collecting_with_transition settings iss own question_count transition scheduled =
      do
        fresh ← get_issue_by_id iss.id
        if is_none fresh.questions_curated_at then populate settings iss question_count else pure tt
        make_transition iss.id transition
        if scheduled
            then pure tt
            else logged (schedule_issue_events settings iss.id iss.deadline own)
        announce iss

  unfoldable pub open_issue_for_collecting : Settings → Issue → Zone → ℕ → Exec (Unit {0})
  open_issue_for_collecting settings iss own question_count =
      open_issue_for_collecting_with_transition (some settings) iss own question_count none false

  abbrev pub moved_draft : Issue → ℕ × ℕ → ℕ → ℕ → Issue
  moved_draft draft label now deadline = record draft {
    month = label.0;
    year = label.1;
    opens_at = now;
    deadline = deadline;
  }

  -- A draft whose close is past or near gets a new window first.
  unfoldable pub open_stale_draft : Settings → Zone → ℕ → ℕ → Issue → Exec (Unit {0})
  open_stale_draft settings loc now group_id draft = do
    label ← issue_label group_id draft.id (cal.civil loc now).month (cal.civil loc now).year
    update_issue_schedule draft.id label.0 label.1 now (default_deadline cal now settings loc)
    open_issue_for_collecting settings
        (moved_draft draft label now (default_deadline cal now settings loc)) loc 0

  unfoldable pub open_fresh_issue : Settings → Zone → ℕ → ℕ → Exec (Unit {0})
  open_fresh_issue settings loc now group_id = do
    label ← issue_label group_id 0 (cal.civil loc now).month (cal.civil loc now).year
    issue_id ←
        create_issue group_id none label.0 label.1 now (default_deadline cal now settings loc)
    iss ← get_issue_by_id issue_id
    open_issue_for_collecting settings iss cal.stored 0

  unfoldable pub open_found : Settings → Zone → ℕ → ℕ → ℕ → Option Issue → Exec (Unit {0})
  open_found settings loc now group_id scheduled_at none =
      open_fresh_issue settings loc now group_id
  open_found settings loc now group_id scheduled_at (some draft) =
      if ltb scheduled_at draft.opens_at
      then pure tt
      else if ltb (now + 43200) draft.deadline
      then open_issue_for_collecting settings draft cal.stored 0
      else open_stale_draft settings loc now group_id draft

  unfoldable pub open_next_round : Settings → ℕ → ℕ → Exec (Unit {0})
  open_next_round settings group_id scheduled_at = do
    now ← get_now
    draft ← get_next_draft_issue group_id
    open_found settings (settings_location cal (some settings)) now group_id scheduled_at draft

  unfoldable pub unless_collecting : Settings → ℕ → ℕ → Exec (Unit {0})
  unless_collecting settings group_id scheduled_at = do
    running ← has_collecting_issue group_id
    if running then pure tt else open_next_round settings group_id scheduled_at

  unfoldable pub create_next_issue_for : ℕ → ℕ → Exec (Unit {0})
  create_next_issue_for group_id scheduled_at = do
    settings ← get_settings group_id
    if settings.auto_create_enabled
        then unless_collecting settings group_id scheduled_at
        else pure tt
