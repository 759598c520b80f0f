-- ===== src/Store/Operation.antt =====
-- The modelled operations of internal/store that write, as data, and the databases that any sequence of them
-- can lead to: each runs at its own time, with its own view for readers and its own faults.
pub mod Reachable
use piecesoflife.Prelude.{ℕ, ◌≡◌, String, Bool, Option, List}
use piecesoflife.Store.Rows.{
  Db, Status, EventType, SchedulerEventSpec, EmailType, EmailStatus, TokenType,
}
use piecesoflife.Store.Exec.{Exec, World, pure, ◌>>=◌}
use piecesoflife.Store.Events
use piecesoflife.Store.Issues
use piecesoflife.Store.Schedule
use piecesoflife.Store.Schedule.{ScheduleUpdate}
use piecesoflife.Store.Emails
use piecesoflife.Store.Groups
use piecesoflife.Store.Auth
use piecesoflife.Store.Questions
use piecesoflife.Store.Questions.Bank
use piecesoflife.Store.Questions.Defaults
use piecesoflife.Store.Questions.Curation
use piecesoflife.Store.Responses
use piecesoflife.Store.Responses.Progress
use piecesoflife.Store.Members
use piecesoflife.Store.Responses.{DraftBlock}
use piecesoflife.Store.Tables.{Source, BlockType, Role, NotificationPreferences}

pub data Operation : Type 0 where
  create_scheduler_event : Option ℕ → EventType → ℕ → Operation
  ensure_daily_event : EventType → ℕ → Operation
  mark_event_fired : ℕ → Bool → Operation
  delete_pending_group_events_by_type : ℕ → Option EventType → Operation
  delete_pending_events_for_group : ℕ → Operation
  requeue_issue_events : ℕ → List SchedulerEventSpec → Operation
  apply_schedule : ScheduleUpdate → Operation
  create_issue : ℕ → Option String → ℕ → ℕ → ℕ → ℕ → Operation
  update_issue_schedule : ℕ → ℕ → ℕ → ℕ → ℕ → Operation
  update_draft_issue : ℕ → Option String → ℕ → Operation
  open_draft_early :
      ℕ → ℕ → Bool → Option String → ℕ → ℕ → ℕ → ℕ → List SchedulerEventSpec → Operation
  update_issue : ℕ → Option String → Option ℕ → Operation
  set_issue_status : ℕ → Status → Operation
  publish_issue : ℕ → Operation
  log_email : Option ℕ → Option ℕ → Option ℕ → EmailType → EmailStatus → Bool → Operation
  begin_scheduler_email_attempt : ℕ → ℕ → Option ℕ → Option ℕ → EmailType → Operation
  update_email_log : ℕ → EmailStatus → Option ℕ → Bool → Operation
  set_group_active : ℕ → Bool → Operation
  create_auth_token : ℕ → String → TokenType → ℕ → Operation
  consume_auth_token : ℕ → Operation
  cleanup_expired_tokens : Operation
  create_session : ℕ → String → ℕ → Option ℕ → Operation
  set_session_group : ℕ → ℕ → Operation
  delete_session : ℕ → Operation
  cleanup_expired_sessions : Operation
  record_login_attempt : String → Operation
  create_question : ℕ → String → Option String → Source → Option ℕ → ℕ → Operation
  update_question : ℕ → String → Operation
  reorder_questions : ℕ → List ℕ → Operation
  delete_question : ℕ → Operation
  delete_questions_by_issue : ℕ → Operation
  mark_bank_question_used : ℕ → Operation
  create_bank_question : ℕ → String → String → Operation
  update_bank_question : ℕ → ℕ → String → String → Operation
  delete_bank_question : ℕ → ℕ → Operation
  create_default_question : ℕ → String → Operation
  set_default_question_enabled : ℕ → ℕ → Bool → Operation
  update_default_question : ℕ → ℕ → Option String → Option Bool → Operation
  delete_default_question : ℕ → ℕ → Operation
  reorder_default_questions : ℕ → List ℕ → Operation
  set_all_default_questions_enabled : ℕ → Bool → Operation
  prepare_draft_questions : ℕ → ℕ → ℕ → Operation
  create_suggested_question : ℕ → ℕ → ℕ → String → Option String → Operation
  create_response : ℕ → ℕ → Operation
  delete_response : ℕ → Operation
  submit_response : ℕ → Operation
  create_block :
      ℕ → BlockType → Option String → Option String → Option String → Option String → ℕ → Operation
  autosave_response : ℕ → ℕ → List DraftBlock → Operation
  set_issue_count_admin_in : ℕ → Bool → Operation
  update_block : ℕ → Option String → Option String → Operation
  update_block_cover : ℕ → Bool → Option String → Operation
  delete_block : ℕ → Operation
  reorder_blocks : ℕ → List ℕ → Operation
  create_membership : ℕ → ℕ → Role → Operation
  set_membership_role : ℕ → ℕ → Role → Operation
  set_membership_active : ℕ → ℕ → Bool → Operation
  create_user : String → String → Operation
  update_user : ℕ → String → Option String → Option String → Operation
  set_user_name : ℕ → String → Operation
  reactivate_user : ℕ → Operation
  set_last_group : ℕ → ℕ → Operation
  upsert_notification_preferences : NotificationPreferences → Operation
  ensure_notification_preferences : ℕ → Operation

-- An action without its result.
unfoldable pub ignore : {A : Type 0} → Exec A → Exec (Unit {0})
ignore m = do a ← m; pure tt

unfoldable pub perform : Operation → Exec (Unit {0})
perform (create_scheduler_event a b c) = Events.create_scheduler_event a b c
perform (ensure_daily_event a b) = Events.ensure_daily_event a b
perform (mark_event_fired a b) = Events.mark_event_fired a b
perform (delete_pending_group_events_by_type a b) =
    ignore (Events.delete_pending_group_events_by_type a b)
perform (delete_pending_events_for_group a) = ignore (Events.delete_pending_events_for_group a)
perform (requeue_issue_events a b) = Events.requeue_issue_events a b
perform (apply_schedule a) = ignore (Schedule.apply_schedule a)
perform (create_issue a b c d e f) = ignore (Issues.create_issue a b c d e f)
perform (update_issue_schedule a b c d e) = Issues.update_issue_schedule a b c d e
perform (update_draft_issue a b c) = Issues.update_draft_issue a b c
perform (open_draft_early a b c d e f g h i) = Issues.open_draft_early a b c d e f g h i
perform (update_issue a b c) = Issues.update_issue a b c
perform (set_issue_status a b) = Issues.set_issue_status a b
perform (publish_issue a) = Issues.publish_issue a
perform (log_email a b c d e f) = ignore (Emails.log_email a b c d e f)
perform (begin_scheduler_email_attempt a b c d e) =
    ignore (Emails.begin_scheduler_email_attempt a b c d e)
perform (update_email_log a b c d) = Emails.update_email_log a b c d
perform (set_group_active a b) = Groups.set_group_active a b
perform (create_auth_token a b c d) = Auth.create_auth_token a b c d
perform (consume_auth_token a) = Auth.consume_auth_token a
perform cleanup_expired_tokens = ignore Auth.cleanup_expired_tokens
perform (create_session a b c d) = Auth.create_session a b c d
perform (set_session_group a b) = Auth.set_session_group a b
perform (delete_session a) = Auth.delete_session a
perform cleanup_expired_sessions = ignore Auth.cleanup_expired_sessions
perform (record_login_attempt a) = Auth.record_login_attempt a
perform (create_question a b c d e f) = ignore (Questions.create_question a b c d e f)
perform (update_question a b) = Questions.update_question a b
perform (reorder_questions a b) = Questions.reorder_questions a b
perform (delete_question a) = Questions.delete_question a
perform (delete_questions_by_issue a) = Questions.delete_questions_by_issue a
perform (mark_bank_question_used a) = Bank.mark_bank_question_used a
perform (create_bank_question a b c) = ignore (Bank.create_bank_question a b c)
perform (update_bank_question a b c d) = Bank.update_bank_question a b c d
perform (delete_bank_question a b) = Bank.delete_bank_question a b
perform (create_default_question a b) = ignore (Defaults.create_default_question a b)
perform (set_default_question_enabled a b c) = Defaults.set_default_question_enabled a b c
perform (update_default_question a b c d) = Defaults.update_default_question a b c d
perform (delete_default_question a b) = Defaults.delete_default_question a b
perform (reorder_default_questions a b) = Defaults.reorder_default_questions a b
perform (set_all_default_questions_enabled a b) = Defaults.set_all_default_questions_enabled a b
perform (prepare_draft_questions a b c) = Curation.prepare_draft_questions a b c
perform (create_suggested_question a b c d e) =
    ignore (Curation.create_suggested_question a b c d e)
perform (create_response a b) = ignore (Responses.create_response a b)
perform (delete_response a) = Responses.delete_response a
perform (submit_response a) = Responses.submit_response a
perform (create_block a b c d e f g) = ignore (Responses.create_block a b c d e f g)
perform (autosave_response a b c) = ignore (Responses.autosave_response a b c)
perform (set_issue_count_admin_in a b) = Progress.set_issue_count_admin_in a b
perform (update_block a b c) = Progress.update_block a b c
perform (update_block_cover a b c) = Progress.update_block_cover a b c
perform (delete_block a) = Progress.delete_block a
perform (reorder_blocks a b) = Progress.reorder_blocks a b
perform (create_membership a b c) = Members.create_membership a b c
perform (set_membership_role a b c) = Members.set_membership_role a b c
perform (set_membership_active a b c) = Members.set_membership_active a b c
perform (create_user a b) = ignore (Members.create_user a b)
perform (update_user a b c d) = Members.update_user a b c d
perform (set_user_name a b) = Members.set_user_name a b
perform (reactivate_user a) = Members.reactivate_user a
perform (set_last_group a b) = Members.set_last_group a b
perform (upsert_notification_preferences a) = Members.upsert_notification_preferences a
perform (ensure_notification_preferences a) = Members.ensure_notification_preferences a

-- The databases that operations lead to from `d`.
pub data Reaches (d : Db) : Db → Type 0 where
  start : Reaches d d
  next :
      {e : Db}
      → Reaches d e
      → (op : Operation) (w : World) → w.db ≡ e
      → Reaches d (perform op w).1.db
