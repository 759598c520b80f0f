-- ===== src/Store/Schedule/Kept.antt =====
-- internal/store/scheduler.go, ApplySchedule: which events its second half leaves in place.
use piecesoflife.Prelude.{
  ℕ, String, zero, suc, ◌+◌, ◌≡◌, refl, Bool, true, false, Option, none, some, List, [], ◌∷◌, arith,
  exists_where, delete_where, Bool-cases, inl, inr,
}
use piecesoflife.Prelude.Distinct.{exists_where-append}
use piecesoflife.Store.Rows.{Db, Issue, SchedulerEvent, EventType, create_next_issue, is_type}
use piecesoflife.Store.Exec.{ok, query_write}
use piecesoflife.Store.Exec.Respects.{
  IsPreorder, Respects, Respects-bind, Respects-pure, Respects-raise, Respects-exec,
  Respects-query_write, respects_rules, Grants, Grants-ok, grants_rules,
}
use piecesoflife.Store.Sql.{is_pending_in_group, insert_event, delete_events, add_event, new_event}
use piecesoflife.Store.Issues.{update_issues, update_one_issue, expect_one, insert_issue}
use piecesoflife.Store.Labels.{
  is_taken, label_walk, next_available_label, next_available_issue_label_tx,
}
use piecesoflife.Store.Schedule.{ScheduleUpdate, save_window, place_draft, apply_next}

stays_delete {ℓ} :
    {A : Type ℓ} (q p : A → Bool) (xs : List A)
    → ((x : A) → q x ≡ true → p x ≡ false)
    → exists_where q xs ≡ true
    → exists_where q (delete_where p xs) ≡ true
stays_delete q p [] apart h = h
stays_delete q p (x ∷ xs) apart h = elim (Bool-cases (q x)) [
  | inl hit ↦ rw (apart x hit) (rw hit refl)
  | inr miss ↦
      let later : exists_where q xs ≡ true = ground (arith, h, miss) in
      let rest = stays_delete q p xs apart later in ground (arith, rest)
]

-- Of events of a kind that are no openings, some are there after it if some were before.
module _ (q : SchedulerEvent → Bool)
    (apart : (ev : SchedulerEvent)
      → q ev ≡ true
      → is_type ev.event_type create_next_issue ≡ false) where
  abbrev pub Stay : Db → Db → Type 0
  Stay d e = exists_where q d.events ≡ true → exists_where q e.events ≡ true

  Stay-preorder : IsPreorder Stay
  Stay-preorder = record { same = λ d h. h; chain = λ d e f h k x. k (h x) }

  dropped_openings :
      (group_id : ℕ) (db : Db)
      → Stay db (record db {
        events = delete_where (is_pending_in_group db group_id create_next_issue) db.events;
      })
  dropped_openings group_id db h =
      stays_delete q (is_pending_in_group db group_id create_next_issue) db.events
        (λ ev k. let other = apart ev k in ground (arith, other)) h

  added_event :
      (issue_id : Option ℕ) (t : EventType) (at now : ℕ) (db : Db)
      → Stay db (add_event db issue_id t at now)
  added_event issue_id t at now db h =
      ground (arith, h, exists_where-append q db.events (new_event db issue_id t at now))

  delete_openings-Stay :
      (group_id : ℕ) (db : Db)
      → Grants Stay db (delete_events (is_pending_in_group db group_id create_next_issue) db)
  unfolding delete_events
  delete_openings-Stay group_id db = search (grants_rules, dropped_openings)

  insert_event-Stay :
      (issue_id : Option ℕ) (t : EventType) (at now : ℕ) (db : Db)
      → Grants Stay db (insert_event issue_id t at now db)
  unfolding insert_event
  insert_event-Stay issue_id t at now db = search (grants_rules, added_event) depth 9

  save_window-Stay : (g n : ℕ) (db : Db) → Grants Stay db (save_window g n db)
  unfolding save_window
  save_window-Stay g n db = Grants-ok (λ h. h)

  update_issues-Stay :
      (p : Issue → Bool) (f : Issue → Issue) (db : Db) → Grants Stay db (update_issues p f db)
  unfolding update_issues
  update_issues-Stay p f db = Grants-ok (λ h. h)

  insert_issue-Stay :
      (g : ℕ) (title : Option String) (a b c d n : ℕ) (db : Db)
      → Grants Stay db (insert_issue g title a b c d n db)
  unfolding insert_issue
  insert_issue-Stay g title a b c d n db =
      search (grants_rules, λ (h : exists_where q db.events ≡ true). h)

  ruleset stay_rules = (
    respects_rules, Stay-preorder, Respects-exec, delete_openings-Stay, insert_event-Stay,
    save_window-Stay, update_issues-Stay, insert_issue-Stay,
  )

  label_walk-Stay :
      (g x m y left offset : ℕ) → Respects Stay (label_walk query_write g x m y left offset)
  unfolding label_walk
  label_walk-Stay g x m y zero offset = Respects-raise Stay-preorder _
  label_walk-Stay g x m y (suc left) offset =
      Respects-bind Stay-preorder (query_write (λ db. ok (is_taken g x m y offset db))) _
        (Respects-query_write Stay-preorder _)
        (elim [
          | true ↦ label_walk-Stay g x m y left (offset + 1)
          | false ↦ Respects-pure Stay-preorder _
        ])

  next_label-Stay : (g x m y : ℕ) → Respects Stay (next_available_issue_label_tx g x m y)
  unfolding next_available_issue_label_tx next_available_label
  next_label-Stay g x m y = label_walk-Stay g x m y 1200 0

  place_draft-Stay :
      (update : ScheduleUpdate) (n o c m y : ℕ) (d : Option Issue)
      → Respects Stay (place_draft update n o c m y d)
  unfolding place_draft update_one_issue expect_one
  place_draft-Stay update n o c m y (some d) = search stay_rules depth 12
  place_draft-Stay update n o c m y none = search stay_rules depth 9

  pub apply_next-Stay :
      (update : ScheduleUpdate) (now : ℕ) (opening closing : Option ℕ)
      → Respects Stay (apply_next update now opening closing)
  unfolding apply_next expect_one
  apply_next-Stay update now (some o) (some c) =
      search (stay_rules, next_label-Stay, place_draft-Stay) depth 25
  apply_next-Stay update now none _ = search stay_rules
  apply_next-Stay update now (some o) none = search stay_rules
