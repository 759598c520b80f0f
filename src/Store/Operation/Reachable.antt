-- ===== src/Store/Operation/Reachable.antt =====
-- What holds of every database that the operations of internal/store can lead to.
use piecesoflife.Store.Exec.{Exec}
use piecesoflife.Store.Exec.Respects.{Respects, respects_rules}
use piecesoflife.Store.WellFormed.{KeepsForm, KeepsForm-preorder}
use piecesoflife.Store.WellFormed.Operations.{
  create_scheduler_event-Respects, ensure_daily_event-Respects, mark_event_fired-Respects,
  delete_pending_group_events_by_type-Respects, delete_pending_events_for_group-Respects,
  requeue_issue_events-Respects, create_issue-Respects, update_issue_schedule-Respects,
  update_draft_issue-Respects, open_draft_early-Respects, update_issue-Respects,
  set_issue_status-Respects, publish_issue-Respects,
}
use piecesoflife.Store.WellFormed.Schedule.{apply_schedule-Respects}
use piecesoflife.Store.WellFormed.Aside.{
  log_email-Respects, begin_scheduler_email_attempt-Respects, update_email_log-Respects,
  set_group_active-Respects, create_auth_token-Respects, consume_auth_token-Respects,
  cleanup_expired_tokens-Respects, create_session-Respects, set_session_group-Respects,
  delete_session-Respects, cleanup_expired_sessions-Respects, record_login_attempt-Respects,
}
use piecesoflife.Store.WellFormed.Asked.{
  create_question-Respects, update_question-Respects, reorder_questions-Respects,
  delete_question-Respects, delete_questions_by_issue-Respects, mark_bank_question_used-Respects,
  create_bank_question-Respects, update_bank_question-Respects, delete_bank_question-Respects,
  create_default_question-Respects, set_default_question_enabled-Respects,
  update_default_question-Respects, delete_default_question-Respects,
  reorder_default_questions-Respects, set_all_default_questions_enabled-Respects,
}
use piecesoflife.Store.WellFormed.Curated.{
  prepare_draft_questions-Respects, create_suggested_question-Respects,
}
use piecesoflife.Store.WellFormed.Answers.{
  create_response-Respects, delete_response-Respects, submit_response-Respects,
  create_block-Respects, autosave_response-Respects, set_issue_count_admin_in-Respects,
  update_block-Respects, update_block_cover-Respects, delete_block-Respects,
  reorder_blocks-Respects,
}
use piecesoflife.Store.WellFormed.People.{
  create_membership-Respects, set_membership_role-Respects, set_membership_active-Respects,
  create_user-Respects, update_user-Respects, set_user_name-Respects, reactivate_user-Respects,
  set_last_group-Respects, upsert_notification_preferences-Respects,
  ensure_notification_preferences-Respects,
}
use piecesoflife.Store.Operation.{Operation, ignore}

ignore-Respects : {A : Type 0} (m : Exec A) → Respects KeepsForm m → Respects KeepsForm (ignore m)
unfolding ignore
ignore-Respects m h = search (respects_rules, KeepsForm-preorder)

ruleset operation_rules = (
  ignore-Respects, create_scheduler_event-Respects, ensure_daily_event-Respects,
  mark_event_fired-Respects, delete_pending_group_events_by_type-Respects,
  delete_pending_events_for_group-Respects, requeue_issue_events-Respects, create_issue-Respects,
  update_issue_schedule-Respects, update_draft_issue-Respects, open_draft_early-Respects,
  update_issue-Respects, set_issue_status-Respects, publish_issue-Respects, apply_schedule-Respects,
  log_email-Respects, begin_scheduler_email_attempt-Respects, update_email_log-Respects,
  set_group_active-Respects, create_auth_token-Respects, consume_auth_token-Respects,
  cleanup_expired_tokens-Respects, create_session-Respects, set_session_group-Respects,
  delete_session-Respects, cleanup_expired_sessions-Respects, record_login_attempt-Respects,
  create_question-Respects, update_question-Respects, reorder_questions-Respects,
  delete_question-Respects, delete_questions_by_issue-Respects, mark_bank_question_used-Respects,
  create_bank_question-Respects, update_bank_question-Respects, delete_bank_question-Respects,
  create_default_question-Respects, set_default_question_enabled-Respects,
  update_default_question-Respects, delete_default_question-Respects,
  reorder_default_questions-Respects, set_all_default_questions_enabled-Respects,
  prepare_draft_questions-Respects, create_suggested_question-Respects, create_response-Respects,
  delete_response-Respects, submit_response-Respects, create_block-Respects,
  autosave_response-Respects, set_issue_count_admin_in-Respects, update_block-Respects,
  update_block_cover-Respects, delete_block-Respects, reorder_blocks-Respects,
  create_membership-Respects, set_membership_role-Respects, set_membership_active-Respects,
  create_user-Respects, update_user-Respects, set_user_name-Respects, reactivate_user-Respects,
  set_last_group-Respects, upsert_notification_preferences-Respects,
  ensure_notification_preferences-Respects,
)
