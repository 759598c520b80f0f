-- ===== src/Store/Rows.antt =====
-- The tables of internal/store, as the migrations leave them, with the columns that the modelled
-- code reads or writes. An instant is a number of whole seconds since the epoch.
use piecesoflife.Prelude.{ℕ, String, Bool, true, false, Option, List, ◌==◌}
use piecesoflife.Store.Tables.{User, Content}

-- issues.status
pub data Status : Type 0 where
  draft collecting published : Status

abbrev pub is_draft : Status → Bool
is_draft draft = true
is_draft _ = false

abbrev pub is_collecting : Status → Bool
is_collecting collecting = true
is_collecting _ = false

abbrev pub is_published : Status → Bool
is_published published = true
is_published _ = false

-- scheduler_events.event_type: the values of the CHECK constraint, and `unknown` for any other text.
pub data EventType : Type 0 where
  reminder_1 reminder_2 admin_summary auto_close create_next_issue : EventType
  token_cleanup session_cleanup comment_digest : EventType
  unknown : EventType

abbrev pub type_code : EventType → ℕ
type_code reminder_1 = 0
type_code reminder_2 = 1
type_code admin_summary = 2
type_code auto_close = 3
type_code create_next_issue = 4
type_code token_cleanup = 5
type_code session_cleanup = 6
type_code comment_digest = 7
type_code unknown = 8

-- Equality of two event types.
abbrev pub is_type : EventType → EventType → Bool
is_type a b = type_code a == type_code b

abbrev pub is_reminder : EventType → Bool
is_reminder reminder_1 = true
is_reminder reminder_2 = true
is_reminder _ = false

-- CHECK(event_type IN (…))
abbrev pub is_known_type : EventType → Bool
is_known_type unknown = false
is_known_type _ = true

pub record Issue : Type 0 where
  pub id : ℕ
  pub group_id : ℕ
  pub title : Option String
  pub month : ℕ
  pub year : ℕ
  pub status : Status
  pub opens_at : ℕ
  pub deadline : ℕ
  pub published_at : Option ℕ
  pub created_at : ℕ
  pub questions_curated_at : Option ℕ
  pub count_admin_in : Bool

pub record SchedulerEvent : Type 0 where
  pub id : ℕ
  pub issue_id : Option ℕ
  pub event_type : EventType
  pub scheduled_at : ℕ
  pub fired_at : Option ℕ
  pub was_late : Bool
  pub created_at : ℕ

pub record SchedulerEventSpec : Type 0 where
  pub event_type : EventType
  pub scheduled_at : ℕ

-- settings.frequency
pub data Frequency : Type 0 where
  biweekly monthly quarterly : Frequency

pub record Settings : Type 0 where
  pub group_id : ℕ
  pub frequency : Frequency
  pub submission_window_days : ℕ
  pub timezone : String
  pub setup_complete : Bool
  pub auto_create_enabled : Bool
  pub questions_per_issue : ℕ

pub record Group : Type 0 where
  pub id : ℕ
  pub is_active : Bool

-- email_log.type
pub data EmailType : Type 0 where
  open_email reminder_email published_email summary_email : EmailType

abbrev pub email_code : EmailType → ℕ
email_code open_email = 0
email_code reminder_email = 1
email_code published_email = 2
email_code summary_email = 3

-- email_log.status
pub data EmailStatus : Type 0 where
  pending sent failed : EmailStatus

abbrev pub is_sent : EmailStatus → Bool
is_sent sent = true
is_sent _ = false

pub record EmailLog : Type 0 where
  pub id : ℕ
  pub group_id : Option ℕ
  pub user_id : Option ℕ
  pub issue_id : Option ℕ
  pub scheduler_event_id : Option ℕ
  pub email_type : EmailType
  pub status : EmailStatus
  pub sent_at : Option ℕ
  pub has_error : Bool

-- auth_tokens.type
pub data TokenType : Type 0 where
  login email_cta : TokenType

pub record AuthToken : Type 0 where
  pub id : ℕ
  pub user_id : ℕ
  pub token_hash : String
  pub token_type : TokenType
  pub expires_at : ℕ
  pub consumed_at : Option ℕ

pub record Session : Type 0 where
  pub id : ℕ
  pub user_id : ℕ
  pub group_id : Option ℕ
  pub token_hash : String
  pub expires_at : ℕ

pub record LoginAttempt : Type 0 where
  pub email_hash : String
  pub created_at : ℕ

-- The database. A `…_seq` field is the last id that AUTOINCREMENT gave out.
pub record Db : Type 0 where
  pub users : List User
  pub groups : List Group
  pub settings : List Settings
  pub issues : List Issue
  pub issue_seq : ℕ
  pub events : List SchedulerEvent
  pub event_seq : ℕ
  pub emails : List EmailLog
  pub email_seq : ℕ
  pub tokens : List AuthToken
  pub token_seq : ℕ
  pub sessions : List Session
  pub session_seq : ℕ
  pub login_attempts : List LoginAttempt
  pub user_seq : ℕ
  pub content : Content
