-- ===== src/Store/WellFormed/Aside.antt =====
-- The operations on the email log, the tokens, the sessions and the groups leave the tables of the
-- rounds well-formed.
use piecesoflife.Prelude.{ℕ, String, refl, Bool, Option, none, some, List}
use piecesoflife.Store.Rows.{
  Db, EmailLog, EmailType, EmailStatus, TokenType, AuthToken, Session, LoginAttempt,
}
use piecesoflife.Store.Exec.{ok}
use piecesoflife.Store.Exec.Respects.{Respects, Respects-exec, Grants, Grants-ok, grants_rules}
use piecesoflife.Store.WellFormed.{KeepsForm, KeepsForm-preorder, aside-KeepsForm}
use piecesoflife.Store.WellFormed.Operations.{form_rules}
use piecesoflife.Store.Emails.{
  insert_log, log_email, reset_log, reserve, begin_scheduler_email_attempt, update_email_log,
}
use piecesoflife.Store.Groups.{set_group_active}
use piecesoflife.Store.Auth.{
  insert_token, create_auth_token, consume_row, consume_auth_token, cleanup_expired_tokens,
  insert_session, create_session, move_session, set_session_group, delete_session,
  cleanup_expired_sessions, record_login_attempt,
}

insert_log-KeepsForm :
    (group_id user_id issue_id event_id : Option ℕ) (email_type : EmailType) (status : EmailStatus)
    (has_error : Bool) (db : Db)
    → Grants KeepsForm db
        (insert_log group_id user_id issue_id event_id email_type status has_error db)
unfolding insert_log
insert_log-KeepsForm group_id user_id issue_id event_id email_type status has_error db =
    search (grants_rules, aside-KeepsForm db, refl) depth 9

reset_log-KeepsForm :
    (id : ℕ) (group_id issue_id : Option ℕ) (db : Db)
    → Grants KeepsForm db (reset_log id group_id issue_id db)
unfolding reset_log
reset_log-KeepsForm id group_id issue_id db = Grants-ok (aside-KeepsForm db _ refl refl refl refl)

pub log_email-Respects :
    (group_id user_id issue_id : Option ℕ) (email_type : EmailType) (status : EmailStatus)
    (has_error : Bool)
    → Respects KeepsForm (log_email group_id user_id issue_id email_type status has_error)
unfolding log_email
log_email-Respects group_id user_id issue_id email_type status has_error =
    search (form_rules, insert_log-KeepsForm)

reserve-Respects :
    (event_id user_id : ℕ) (group_id issue_id : Option ℕ) (email_type : EmailType)
    (found : Option EmailLog)
    → Respects KeepsForm (reserve event_id user_id group_id issue_id email_type found)
unfolding reserve
reserve-Respects event_id user_id group_id issue_id email_type none =
    search (form_rules, insert_log-KeepsForm) depth 9
reserve-Respects event_id user_id group_id issue_id email_type (some log) =
    search (form_rules, reset_log-KeepsForm) depth 9

pub begin_scheduler_email_attempt-Respects :
    (event_id user_id : ℕ) (group_id issue_id : Option ℕ) (email_type : EmailType)
    → Respects KeepsForm
        (begin_scheduler_email_attempt event_id user_id group_id issue_id email_type)
unfolding begin_scheduler_email_attempt
begin_scheduler_email_attempt-Respects event_id user_id group_id issue_id email_type =
    search (form_rules, reserve-Respects) depth 9

pub update_email_log-Respects :
    (id : ℕ) (status : EmailStatus) (sent_at : Option ℕ) (has_error : Bool)
    → Respects KeepsForm (update_email_log id status sent_at has_error)
unfolding update_email_log
update_email_log-Respects id status sent_at has_error =
    Respects-exec KeepsForm-preorder _ (λ d. Grants-ok (aside-KeepsForm d _ refl refl refl refl))

pub set_group_active-Respects :
    (id : ℕ) (active : Bool) → Respects KeepsForm (set_group_active id active)
unfolding set_group_active
set_group_active-Respects id active =
    Respects-exec KeepsForm-preorder _ (λ d. Grants-ok (aside-KeepsForm d _ refl refl refl refl))

insert_token-KeepsForm :
    (user_id : ℕ) (hash : String) (token_type : TokenType) (expires_at : ℕ) (db : Db)
    → Grants KeepsForm db (insert_token user_id hash token_type expires_at db)
unfolding insert_token
insert_token-KeepsForm user_id hash token_type expires_at db =
    search (grants_rules, aside-KeepsForm db, refl) depth 9

insert_session-KeepsForm :
    (user_id : ℕ) (hash : String) (expires_at : ℕ) (group_id : Option ℕ) (db : Db)
    → Grants KeepsForm db (insert_session user_id hash expires_at group_id db)
unfolding insert_session
insert_session-KeepsForm user_id hash expires_at group_id db =
    search (grants_rules, aside-KeepsForm db, refl) depth 9

move_session-KeepsForm :
    (id group_id : ℕ) (db : Db) → Grants KeepsForm db (move_session id group_id db)
unfolding move_session
move_session-KeepsForm id group_id db = search (grants_rules, aside-KeepsForm db, refl) depth 9

consume_row-KeepsForm : (id now : ℕ) (db : Db) → Grants KeepsForm db (consume_row id now db)
unfolding consume_row
consume_row-KeepsForm id now db = Grants-ok (aside-KeepsForm db _ refl refl refl refl)

tokens-KeepsForm :
    (db : Db) (tokens : List AuthToken) (n : ℕ)
    → Grants KeepsForm db (ok (n, record db { tokens = tokens }))
tokens-KeepsForm db tokens n = Grants-ok (aside-KeepsForm db _ refl refl refl refl)

sessions-KeepsForm {ℓ} :
    {A : Type ℓ} (db : Db) (sessions : List Session) (a : A)
    → Grants KeepsForm db (ok (a, record db { sessions = sessions }))
sessions-KeepsForm db sessions a = Grants-ok (aside-KeepsForm db _ refl refl refl refl)

attempts-KeepsForm :
    (db : Db) (attempts : List LoginAttempt)
    → Grants KeepsForm db (ok (tt {0}, record db { login_attempts = attempts }))
attempts-KeepsForm db attempts = Grants-ok (aside-KeepsForm db _ refl refl refl refl)

ruleset aside_rules = (
  form_rules, insert_token-KeepsForm, insert_session-KeepsForm, move_session-KeepsForm,
  consume_row-KeepsForm, tokens-KeepsForm, sessions-KeepsForm, attempts-KeepsForm,
)

pub create_auth_token-Respects :
    (user_id : ℕ) (hash : String) (token_type : TokenType) (expires_at : ℕ)
    → Respects KeepsForm (create_auth_token user_id hash token_type expires_at)
unfolding create_auth_token
create_auth_token-Respects user_id hash token_type expires_at = search aside_rules

pub consume_auth_token-Respects : (id : ℕ) → Respects KeepsForm (consume_auth_token id)
unfolding consume_auth_token
consume_auth_token-Respects id = search aside_rules depth 9

pub cleanup_expired_tokens-Respects : Respects KeepsForm cleanup_expired_tokens
unfolding cleanup_expired_tokens
cleanup_expired_tokens-Respects = search aside_rules depth 9

pub create_session-Respects :
    (user_id : ℕ) (hash : String) (expires_at : ℕ) (group_id : Option ℕ)
    → Respects KeepsForm (create_session user_id hash expires_at group_id)
unfolding create_session
create_session-Respects user_id hash expires_at group_id = search aside_rules

pub set_session_group-Respects :
    (id group_id : ℕ) → Respects KeepsForm (set_session_group id group_id)
unfolding set_session_group
set_session_group-Respects id group_id = search aside_rules

pub delete_session-Respects : (id : ℕ) → Respects KeepsForm (delete_session id)
unfolding delete_session
delete_session-Respects id = search aside_rules

pub cleanup_expired_sessions-Respects : Respects KeepsForm cleanup_expired_sessions
unfolding cleanup_expired_sessions
cleanup_expired_sessions-Respects = search aside_rules depth 9

pub record_login_attempt-Respects : (hash : String) → Respects KeepsForm (record_login_attempt hash)
unfolding record_login_attempt
record_login_attempt-Respects hash = search aside_rules depth 9
