-- ===== src/Store/WellFormed/Schedule.antt =====
-- ApplySchedule keeps the tables well-formed.
use piecesoflife.Prelude.{ℕ, zero, suc, ◌+◌, Bool, true, false, Option, none, some}
use piecesoflife.Store.Rows.{Db, Issue, SchedulerEvent}
use piecesoflife.Store.Exec.{ok, Exec, query, query_write, pure, ◌>>=◌, ◌>>◌}
use piecesoflife.Store.Exec.Respects.{
  Respects, Respects-bind, Respects-pure, Respects-raise, Respects-query_write,
}
use piecesoflife.Store.WellFormed.{KeepsForm, KeepsForm-preorder}
use piecesoflife.Store.WellFormed.Operations.{
  form_rules, expect_one-Respects, update_one_issue-Respects, insert_events-Respects,
}
use piecesoflife.Store.Labels.{
  RowQuerier, is_taken, label_walk, next_available_label, next_available_issue_label_tx,
}
use piecesoflife.Store.Schedule.{
  ScheduleUpdate, clear_of_pinned, clear_of_current, check_overlap, apply_current, place_draft,
  apply_next, schedule_body, apply_schedule,
}

module _ (q : RowQuerier)
    (hq : (s : Db → piecesoflife.Store.Exec.Result Bool) → Respects KeepsForm (q s)) where
  pub label_walk-Respects :
      (group_id exclude_id base_month base_year left offset : ℕ)
      → Respects KeepsForm (label_walk q group_id exclude_id base_month base_year left offset)
  unfolding label_walk
  label_walk-Respects group_id exclude_id base_month base_year zero offset =
      Respects-raise KeepsForm-preorder _
  label_walk-Respects group_id exclude_id base_month base_year (suc left) offset =
      Respects-bind KeepsForm-preorder
        (q (λ db. ok (is_taken group_id exclude_id base_month base_year offset db))) _ (hq _)
        (elim [
          | true ↦ label_walk-Respects group_id exclude_id base_month base_year left (offset + 1)
          | false ↦ Respects-pure KeepsForm-preorder _
        ])

next_available_issue_label_tx-Respects :
    (group_id exclude_id base_month base_year : ℕ)
    → Respects KeepsForm (next_available_issue_label_tx group_id exclude_id base_month base_year)
unfolding next_available_issue_label_tx next_available_label
next_available_issue_label_tx-Respects group_id exclude_id base_month base_year =
    label_walk-Respects query_write (λ s. Respects-query_write KeepsForm-preorder s) group_id
      exclude_id base_month base_year 1200 0

clear_of_pinned-Respects :
    (deadline : ℕ) (pinned : Option SchedulerEvent)
    → Respects KeepsForm (clear_of_pinned deadline pinned)
unfolding clear_of_pinned
clear_of_pinned-Respects deadline none = search form_rules
clear_of_pinned-Respects deadline (some ev) = search form_rules

clear_of_current-Respects :
    (opening : ℕ) (current : Option Issue) → Respects KeepsForm (clear_of_current opening current)
unfolding clear_of_current
clear_of_current-Respects opening none = search form_rules
clear_of_current-Respects opening (some iss) = search form_rules

check_overlap-Respects :
    (group_id : ℕ) (deadline opening : Option ℕ)
    → Respects KeepsForm (check_overlap group_id deadline opening)
unfolding check_overlap
check_overlap-Respects group_id (some d) (some o) = search form_rules
check_overlap-Respects group_id (some d) none =
    search (form_rules, clear_of_pinned-Respects) depth 9
check_overlap-Respects group_id none (some o) =
    search (form_rules, clear_of_current-Respects) depth 9
check_overlap-Respects group_id none none = search form_rules

apply_current-Respects :
    (update : ScheduleUpdate) (now : ℕ) (id deadline : Option ℕ)
    → Respects KeepsForm (apply_current update now id deadline)
unfolding apply_current
apply_current-Respects update now (some id) (some d) =
    search (form_rules, update_one_issue-Respects, insert_events-Respects) depth 12
apply_current-Respects update now none _ = search form_rules
apply_current-Respects update now (some id) none = search form_rules

place_draft-Respects :
    (update : ScheduleUpdate) (now opening closing month year : ℕ) (d : Option Issue)
    → Respects KeepsForm (place_draft update now opening closing month year d)
unfolding place_draft
place_draft-Respects update now opening closing month year (some d) =
    search (form_rules, update_one_issue-Respects) depth 9
place_draft-Respects update now opening closing month year none = search form_rules

apply_next-Respects :
    (update : ScheduleUpdate) (now : ℕ) (opening closing : Option ℕ)
    → Respects KeepsForm (apply_next update now opening closing)
unfolding apply_next
apply_next-Respects update now (some o) (some c) =
    search
      (
        form_rules, expect_one-Respects, next_available_issue_label_tx-Respects,
        place_draft-Respects,
      )
      depth 25
apply_next-Respects update now none _ = search form_rules
apply_next-Respects update now (some o) none = search form_rules

pub apply_schedule-Respects : (update : ScheduleUpdate) → Respects KeepsForm (apply_schedule update)
unfolding apply_schedule schedule_body
apply_schedule-Respects update =
    search (form_rules, check_overlap-Respects, apply_current-Respects, apply_next-Respects) depth
      16
