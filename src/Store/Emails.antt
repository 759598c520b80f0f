-- ===== src/Store/Emails.antt =====
-- internal/store/email.go: the log of emails, which makes the scheduler's retries idempotent.
pub mod Once
use piecesoflife.Prelude.{
  ℕ, suc, Bool, true, false, ◌&&◌, Option, none, some, [], ◌∷◌, ◌++◌, ◌==◌, if◌then◌else◌, holds_id,
  exists_where, update_where, first_where,
}
use piecesoflife.Store.Rows.{
  Db, Group, Issue, SchedulerEvent, EmailLog, EmailType, EmailStatus, pending, sent, is_sent,
  email_code,
}
use piecesoflife.Store.Tables.{User}
use piecesoflife.Store.Exec.{
  Result, ok, err, Exec, unique_violation, foreign_key_violation, pure, query_write, exec,
  transaction, ◌>>=◌, ◌>>◌,
}

abbrev pub new_log :
    Db → Option ℕ → Option ℕ → Option ℕ → Option ℕ → EmailType → EmailStatus → Bool → EmailLog
new_log db group_id user_id issue_id event_id email_type status has_error = record {
  id = suc db.email_seq;
  group_id = group_id;
  user_id = user_id;
  issue_id = issue_id;
  scheduler_event_id = event_id;
  email_type = email_type;
  status = status;
  sent_at = none;
  has_error = has_error;
}

-- scheduler_event_id = ? AND user_id = ? AND type = ?
abbrev pub is_attempt : ℕ → ℕ → EmailType → EmailLog → Bool
is_attempt event_id user_id email_type log =
    holds_id log.scheduler_event_id event_id
    && holds_id log.user_id user_id
    && email_code log.email_type == email_code email_type

-- A nullable column that references a table.
abbrev pub reference_holds : Option ℕ → (ℕ → Bool) → Bool
reference_holds none exists = true
reference_holds (some id) exists = exists id

abbrev pub references_hold : Db → Option ℕ → Option ℕ → Option ℕ → Option ℕ → Bool
references_hold db group_id user_id issue_id event_id =
    reference_holds group_id (λ id. exists_where (λ (g : Group). g.id == id) db.groups)
    && reference_holds user_id (λ id. exists_where (λ (u : User). u.id == id) db.users)
    && reference_holds issue_id (λ id. exists_where (λ (i : Issue). i.id == id) db.issues)
    && reference_holds event_id (λ id. exists_where (λ (e : SchedulerEvent). e.id == id) db.events)

-- idx_email_log_scheduler_event_user_type: one log for an event, a user and a type.
abbrev pub same_attempt : Option ℕ → Option ℕ → EmailType → EmailLog → Bool
same_attempt (some event_id) (some user_id) email_type log =
    is_attempt event_id user_id email_type log
same_attempt _ _ email_type log = false

unfoldable pub insert_log :
    Option ℕ
    → Option ℕ
    → Option ℕ
    → Option ℕ
    → EmailType
    → EmailStatus
    → Bool
    → Db
    → Result (ℕ × Db)
insert_log group_id user_id issue_id event_id email_type status has_error db =
    if exists_where (same_attempt event_id user_id email_type) db.emails
    then err unique_violation
    else if references_hold db group_id user_id issue_id event_id
    then ok (
      suc db.email_seq,
      record db {
        emails =
            db.emails
            ++ new_log db group_id user_id issue_id event_id email_type status has_error ∷ [];
        email_seq = suc db.email_seq;
      },
    )
    else err foreign_key_violation

unfoldable pub log_email : Option ℕ → Option ℕ → Option ℕ → EmailType → EmailStatus → Bool → Exec ℕ
log_email group_id user_id issue_id email_type status has_error =
    exec (insert_log group_id user_id issue_id none email_type status has_error)

abbrev pub is_log : ℕ → EmailLog → Bool
is_log id log = log.id == id

abbrev pub retry : Option ℕ → Option ℕ → EmailLog → EmailLog
retry group_id issue_id log = record log {
  group_id = group_id;
  issue_id = issue_id;
  status = pending;
  sent_at = none;
  has_error = false;
}

unfoldable pub reset_log : ℕ → Option ℕ → Option ℕ → Db → Result (Unit {0} × Db)
reset_log id group_id issue_id db =
    ok (tt, record db { emails = update_where (is_log id) (retry group_id issue_id) db.emails })

-- The log's id, and whether to send.
unfoldable pub reserve : ℕ → ℕ → Option ℕ → Option ℕ → EmailType → Option EmailLog → Exec (ℕ × Bool)
reserve event_id user_id group_id issue_id email_type (some log) =
    if is_sent log.status
    then pure (log.id, false)
    else do exec (reset_log log.id group_id issue_id); pure (log.id, true)
reserve event_id user_id group_id issue_id email_type none = do
  log_id ←
      exec (insert_log group_id (some user_id) issue_id (some event_id) email_type pending false)
  pure (log_id, true)

unfoldable pub begin_scheduler_email_attempt :
    ℕ → ℕ → Option ℕ → Option ℕ → EmailType → Exec (ℕ × Bool)
begin_scheduler_email_attempt event_id user_id group_id issue_id email_type = transaction (do
  found ← query_write (λ db. ok (first_where (is_attempt event_id user_id email_type) db.emails))
  reserve event_id user_id group_id issue_id email_type found)

abbrev pub set_outcome : EmailStatus → Option ℕ → Bool → EmailLog → EmailLog
set_outcome status sent_at has_error log = record log {
  status = status;
  sent_at = sent_at;
  has_error = has_error;
}

unfoldable pub update_email_log : ℕ → EmailStatus → Option ℕ → Bool → Exec (Unit {0})
update_email_log id status sent_at has_error = exec (λ db. ok (
  tt,
  record db { emails = update_where (is_log id) (set_outcome status sent_at has_error) db.emails },
))
