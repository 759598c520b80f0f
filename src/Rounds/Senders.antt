-- ===== src/Rounds/Senders.antt =====
-- internal/server/actions.go: the emails to the members who have not answered, and to the admins. The
-- text of an email, which the templates make, is left out.
use piecesoflife.Prelude.{
  ℕ, ◌+◌, Bool, true, false, not, Option, none, some, List, [], ◌∷◌, ◌==◌, if◌then◌else◌, select,
}
use piecesoflife.Store.Rows.{
  Issue, EmailType, EmailStatus, pending, sent, failed, reminder_email, summary_email, email_cta,
  is_collecting,
}
use piecesoflife.Store.Tables.{NotificationPreferences, is_admin}
use piecesoflife.Store.Exec.{
  Result, ok, err, Exec, Mail, not_collecting, handler, pure, raise, attempt, get_now, get_hash,
  send_mail, is_cancelled, ◌>>=◌, ◌>>◌,
}
use piecesoflife.Store.Issues.{get_issue_by_id}
use piecesoflife.Store.Groups.{get_settings}
use piecesoflife.Store.Auth.{create_auth_token}
use piecesoflife.Store.Emails.{log_email, begin_scheduler_email_attempt, update_email_log}
use piecesoflife.Store.Questions.{list_questions_by_issue}
use piecesoflife.Store.Responses.Progress.{MemberProgress, get_submission_progress}
use piecesoflife.Store.Members.{
  GroupMember, get_notification_preferences, list_active_group_members,
}
use piecesoflife.Scheduler.{logged}

-- 30 days, in seconds
abbrev pub email_cta_token_ttl : ℕ
email_cta_token_ttl = 2592000

unfoldable pub mint_email_cta_token : ℕ → Exec (Unit {0})
mint_email_cta_token user_id = do
  hash ← get_hash
  now ← get_now
  create_auth_token user_id hash email_cta (now + email_cta_token_ttl)

-- `if logID > 0 { _ = UpdateEmailLog(…) }`
unfoldable pub settle_log : ℕ → EmailStatus → Option ℕ → Bool → Exec (Unit {0})
settle_log log_id status sent_at has_error =
    if log_id == 0 then pure tt else logged (update_email_log log_id status sent_at has_error)

-- `logID, _ = LogEmail(…)`
abbrev pub log_id_or_zero : Result ℕ → ℕ
log_id_or_zero (ok id) = id
log_id_or_zero (err e) = 0

-- The log row of an attempt, or none where the email is not to be sent.
abbrev pub granted_log : Result (ℕ × Bool) → Option ℕ
granted_log (err e) = none
granted_log (ok (log_id, true)) = some log_id
granted_log (ok (log_id, false)) = none

unfoldable pub open_log : Issue → ℕ → EmailType → Option ℕ → Exec (Option ℕ)
open_log iss user_id email_type (some event_id) = do
  r ←
      attempt (
        begin_scheduler_email_attempt event_id user_id (some iss.group_id) (some iss.id) email_type)
  pure (granted_log r)
open_log iss user_id email_type none = do
  r ← attempt (log_email (some iss.group_id) (some user_id) (some iss.id) email_type pending false)
  pure (some (log_id_or_zero r))

abbrev pub mail_to : ℕ → EmailType → ℕ → Mail
mail_to user_id email_type issue_id = record {
  user_id = user_id;
  email_type = email_type;
  issue_id = issue_id;
}

unfoldable pub after_send : ℕ → Result (Unit {0}) → Exec (Unit {0})
after_send log_id (err e) = settle_log log_id failed none true
after_send log_id (ok u) = do now ← get_now; settle_log log_id sent (some now) false

unfoldable pub after_mint : Mail → ℕ → Result (Unit {0}) → Exec (Unit {0})
after_mint mail log_id (err e) = settle_log log_id failed none true
after_mint mail log_id (ok u) = do r ← attempt (send_mail mail); after_send log_id r

-- The rest of a round of the loop, once the log row is there.
unfoldable pub send_logged : Mail → Option ℕ → Exec (Unit {0})
send_logged mail none = pure tt
send_logged mail (some log_id) = do
  r ← attempt (mint_email_cta_token mail.user_id)
  after_mint mail log_id r

unfoldable pub attempt_mail : Issue → ℕ → EmailType → Option ℕ → Exec (Unit {0})
attempt_mail iss user_id email_type event_id = do
  log ← open_log iss user_id email_type event_id
  send_logged (mail_to user_id email_type iss.id) log

-- Without a row of preferences, or when it cannot be read, the member is reminded.
abbrev pub wants_reminders : Result NotificationPreferences → Bool
wants_reminders (err e) = true
wants_reminders (ok prefs) = prefs.reminders

unfoldable pub remind : Issue → ℕ → Option ℕ → Exec (Unit {0})
remind iss user_id event_id = do
  prefs ← attempt (get_notification_preferences user_id)
  if wants_reminders prefs then attempt_mail iss user_id reminder_email event_id else pure tt

-- The loop over those who have not answered.
unfoldable pub remind_each : Issue → Option ℕ → List MemberProgress → Exec (Unit {0})
remind_each iss event_id [] = pure tt
remind_each iss event_id (m ∷ ms) = do
  cancelled ← is_cancelled
  if cancelled then raise handler else remind iss m.user_id event_id
  remind_each iss event_id ms

abbrev pub non_responders : List MemberProgress → List MemberProgress
non_responders = select (λ m. not m.responded)

unfoldable pub remind_waiting : Issue → Option ℕ → Exec (Unit {0})
remind_waiting iss event_id = do
  settings ← get_settings iss.group_id
  questions ← list_questions_by_issue iss.id
  progress ← get_submission_progress iss.id
  remind_each iss event_id (non_responders progress.members)

-- The last chance is named only in the email's text.
unfoldable pub send_reminder_for_issue : ℕ → Bool → Option ℕ → Exec (Unit {0})
send_reminder_for_issue issue_id is_final event_id = do
  iss ← get_issue_by_id issue_id
  if is_collecting iss.status then remind_waiting iss event_id else raise not_collecting

unfoldable pub summarize : Issue → Option ℕ → ℕ → Exec (Unit {0})
summarize iss event_id user_id = do
  cancelled ← is_cancelled
  if cancelled then raise handler else attempt_mail iss user_id summary_email event_id

-- The loop over the members: only the admins get the summary.
unfoldable pub summarize_each : Issue → Option ℕ → List GroupMember → Exec (Unit {0})
summarize_each iss event_id [] = pure tt
summarize_each iss event_id (m ∷ ms) = do
  if is_admin m.role then summarize iss event_id m.user.id else pure tt
  summarize_each iss event_id ms

unfoldable pub summarize_round : Issue → Option ℕ → Exec (Unit {0})
summarize_round iss event_id = do
  settings ← get_settings iss.group_id
  progress ← get_submission_progress iss.id
  members ← list_active_group_members iss.group_id
  summarize_each iss event_id members

unfoldable pub send_admin_summary_for_issue : ℕ → Option ℕ → Exec (Unit {0})
send_admin_summary_for_issue issue_id event_id = do
  iss ← get_issue_by_id issue_id
  if is_collecting iss.status then summarize_round iss event_id else pure tt
