-- ===== src/Rounds/Publishing.antt =====
-- internal/server/actions.go, issues.go and internal/email/sender.go: how a round is published, and
-- the actions that the server gives to the scheduler.
use piecesoflife.Prelude.{ℕ, Bool, true, false, List, [], ◌∷◌, some, if◌then◌else◌}
use piecesoflife.Store.Rows.{
  Issue, Settings, EmailStatus, sent, failed, published_email, is_published,
}
use piecesoflife.Store.Exec.{
  Result, ok, err, Exec, pure, attempt, is_cancelled, send_mail, ◌>>=◌, ◌>>◌,
}
use piecesoflife.Store.Issues.{get_issue_by_id, publish_issue}
use piecesoflife.Store.Groups.{get_settings}
use piecesoflife.Store.Emails.{log_email}
use piecesoflife.Store.Members.{
  GroupMember, get_notification_preferences, list_active_group_members,
}
use piecesoflife.Scheduler.{Actions, logged}
use piecesoflife.Rounds.{Calendar}
use piecesoflife.Rounds.Queue.{queue_next_issue_event, reconcile_auto_create}
use piecesoflife.Rounds.Senders.{
  mint_email_cta_token, mail_to, send_reminder_for_issue, send_admin_summary_for_issue,
}
use piecesoflife.Rounds.Opening.{allows, create_next_issue_for}

-- The loop that makes the batch: without a token the email has the plain address.
unfoldable pub recipients : List GroupMember → Exec (List ℕ)
recipients [] = pure []
recipients (m ∷ ms) = do
  prefs ← attempt (get_notification_preferences m.user.id)
  if allows (λ p. p.published) prefs then logged (mint_email_cta_token m.user.id) else pure tt
  rest ← recipients ms
  pure (if allows (λ p. p.published) prefs then m.user.id ∷ rest else rest)

abbrev pub batch_status : Result (Unit {0}) → EmailStatus
batch_status (ok u) = sent
batch_status (err e) = failed

abbrev pub batch_failed : Result (Unit {0}) → Bool
batch_failed (ok u) = false
batch_failed (err e) = true

-- `SendBatch`: a cancelled context ends it after the email that is under way.
unfoldable pub send_batch : Issue → List ℕ → Exec (Unit {0})
send_batch iss [] = pure tt
send_batch iss (user_id ∷ ids) = do
  r ← attempt (send_mail (mail_to user_id published_email iss.id))
  logged (
      log_email (some iss.group_id) (some user_id) (some iss.id) published_email (batch_status r)
        (batch_failed r))
  cancelled ← is_cancelled
  if cancelled then pure tt else send_batch iss ids

unfoldable pub send_publish_notifications : Issue → List GroupMember → Exec (Unit {0})
send_publish_notifications iss members = do ids ← recipients members; send_batch iss ids

abbrev pub issue_or : Issue → Result Issue → Issue
issue_or old (ok iss) = iss
issue_or old (err e) = old

module _ {Zone : Type 0} (cal : Calendar Zone) where
  unfoldable pub notify_and_queue : Issue → List GroupMember → Settings → Exec (Unit {0})
  notify_and_queue iss members settings = do
    r ← attempt (get_issue_by_id iss.id)
    send_publish_notifications (issue_or iss r) members
    if settings.auto_create_enabled
        then queue_next_issue_event cal settings (issue_or iss r).opens_at
        else pure tt

  unfoldable pub with_settings : Issue → List GroupMember → Exec (Unit {0})
  with_settings iss members = do
    settings ← get_settings iss.group_id
    notify_and_queue iss members settings

  unfoldable pub follow_up : Issue → Exec (Unit {0})
  follow_up iss = do members ← list_active_group_members iss.group_id; with_settings iss members

  -- Once the issue is published, no failure is returned.
  unfoldable pub auto_publish_issue : ℕ → Exec (Unit {0})
  auto_publish_issue issue_id = do
    iss ← get_issue_by_id issue_id
    if is_published iss.status then pure tt else (do publish_issue issue_id; logged (follow_up iss))

  -- internal/server: what the scheduler calls. The digests of comments and the check of the uploads
  -- are parameters.
  abbrev pub server_actions : Exec (Unit {0}) → Exec (Unit {0}) → Actions
  server_actions digests integrity = record {
    send_reminder_for_issue = send_reminder_for_issue;
    send_admin_summary_for_issue = send_admin_summary_for_issue;
    auto_publish_issue = auto_publish_issue;
    create_next_issue = create_next_issue_for cal;
    reconcile_auto_create = reconcile_auto_create cal;
    send_comment_digests = digests;
    check_upload_integrity = integrity;
  }
