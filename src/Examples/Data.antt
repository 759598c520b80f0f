-- ===== src/Examples/Data.antt =====
-- The tables of a running Loop and of an archived one.
use piecesoflife.Prelude.{ℕ, String, Bool, true, false, none, some, List, [], ◌∷◌}
use piecesoflife.Store.Rows.{
  Settings, Db, Issue, Group, SchedulerEvent, SchedulerEventSpec, EventType, AuthToken, draft,
  collecting, reminder_1, reminder_2, auto_close, monthly, reminder_email, failed, login,
}
use piecesoflife.Store.Tables.{
  User, Role, admin, member, Membership, Source, friend, default, Question, QuestionBank, Content,
}
use piecesoflife.Store.Exec.{World}

abbrev pub running : Issue
running = record {
  id = 1;
  group_id = 1;
  title = none;
  month = 3;
  year = 2026;
  status = collecting;
  opens_at = 100000;
  deadline = 1000000;
  published_at = none;
  created_at = 100000;
  questions_curated_at = none;
  count_admin_in = true;
}

abbrev pub paused : Issue
paused = record running { id = 2; group_id = 2 }

abbrev pub event : ℕ → ℕ → EventType → ℕ → SchedulerEvent
event id issue_id event_type scheduled_at = record {
  id = id;
  issue_id = some issue_id;
  event_type = event_type;
  scheduled_at = scheduled_at;
  fired_at = none;
  was_late = false;
  created_at = 100000;
}

abbrev pub first_reminder : SchedulerEvent
first_reminder = event 1 1 reminder_1 500000

abbrev pub close : SchedulerEvent
close = event 2 1 auto_close 1000000

abbrev pub paused_reminder : SchedulerEvent
paused_reminder = event 3 2 reminder_1 500000

abbrev pub active_group : Group
active_group = record { id = 1; is_active = true }

abbrev pub archived_group : Group
archived_group = record { id = 2; is_active = false }

abbrev pub link : AuthToken
link = record {
  id = 1;
  user_id = 1;
  token_hash = "3b1f";
  token_type = login;
  expires_at = 900000;
  consumed_at = none;
}

abbrev pub loop_settings : Settings
loop_settings = record {
  group_id = 1;
  frequency = monthly;
  submission_window_days = 7;
  timezone = "UTC";
  setup_complete = true;
  auto_create_enabled = true;
  questions_per_issue = 5;
}

abbrev pub ana : User
ana = record {
  id = 1;
  name = "Ana";
  email = "ana@example.org";
  avatar_url = none;
  bio = none;
  is_active = true;
  last_group_id = some 1;
}

abbrev pub bo : User
bo = record {
  id = 2;
  name = "Bo";
  email = "bo@example.org";
  avatar_url = none;
  bio = none;
  is_active = true;
  last_group_id = none;
}

abbrev pub membership : ℕ → ℕ → ℕ → Role → Membership
membership id group_id user_id role = record {
  id = id;
  group_id = group_id;
  user_id = user_id;
  role = role;
  is_active = true;
}

abbrev pub question : ℕ → ℕ → Source → ℕ → Question
question id issue_id source sort_order = record {
  id = id;
  issue_id = issue_id;
  text = "What was good?";
  category = none;
  source = source;
  submitted_by = none;
  sort_order = sort_order;
}

abbrev pub bank_question : ℕ → String → Bool → QuestionBank
bank_question id category used = record {
  id = id;
  group_id = 1;
  text = "Where would you go?";
  category = category;
  used = used;
}

abbrev pub contents : Content
contents = record {
  memberships = membership 1 1 1 admin ∷ membership 2 1 2 member ∷ [];
  membership_seq = 2;
  preferences = [];
  questions = question 1 1 friend 0 ∷ question 2 1 default 1 ∷ [];
  question_seq = 2;
  question_bank =
      bank_question 1 "goals" true
      ∷ bank_question 2 "goals" false
      ∷ bank_question 3 "memories" false
      ∷ [];
  bank_seq = 3;
  default_questions =
      record { id = 1; group_id = 1; text = "Free space"; enabled = true; sort_order = 0 } ∷ [];
  default_seq = 1;
  responses = record { id = 1; user_id = 1; question_id = 1; is_draft = false; version = 1 } ∷ [];
  response_seq = 1;
  blocks = [];
  block_seq = 0;
  comments = [];
}

abbrev pub tables : Db
tables = record {
  users = ana ∷ bo ∷ [];
  groups = active_group ∷ archived_group ∷ [];
  settings = loop_settings ∷ [];
  issues = running ∷ paused ∷ [];
  issue_seq = 2;
  events = first_reminder ∷ close ∷ paused_reminder ∷ [];
  event_seq = 3;
  emails = [];
  email_seq = 0;
  tokens = link ∷ [];
  token_seq = 1;
  sessions = [];
  session_seq = 0;
  login_attempts = [];
  user_seq = 2;
  content = contents;
}

abbrev pub at_clock : ℕ → Db → World
at_clock now db = record {
  db = db;
  frozen = none;
  now = now;
  faults = [];
  refusals = [];
  stops = [];
  outbox = [];
  hashes = [];
  picks = [];
}

-- While the reminder is due and the round is open, and long after the round's close.
abbrev pub due : World
due = at_clock 600000 tables

abbrev pub long_after : World
long_after = at_clock 2000000 tables

-- With a draft that is still to open.
abbrev pub upcoming : Issue
upcoming = record running { id = 3; status = draft; opens_at = 700000; deadline = 1300000 }

abbrev pub planning : World
planning =
    at_clock 600000 (record tables { issues = running ∷ paused ∷ upcoming ∷ []; issue_seq = 3 })

-- The reminder has reached one member, but not all.
abbrev pub half_sent : Db
half_sent = record tables {
  emails =
      record {
        id = 1;
        group_id = some 1;
        user_id = some 1;
        issue_id = some 1;
        scheduler_event_id = some 1;
        email_type = reminder_email;
        status = failed;
        sent_at = none;
        has_error = true;
      }
      ∷ [];
  email_seq = 1;
}

abbrev pub new_specs : List SchedulerEventSpec
new_specs =
    record { event_type = reminder_2; scheduled_at = 1100000 }
    ∷ record { event_type = auto_close; scheduled_at = 1200000 }
    ∷ []
