-- ===== src/Store/Issues.antt =====
-- internal/store/issue.go: the issues table.
use piecesoflife.Prelude.{
  ℕ, suc, String, Bool, true, not, ◌&&◌, ◌||◌, Option, none, some, List, [], ◌∷◌, ◌++◌, ◌==◌, ltb,
  leb, if◌then◌else◌, is_none, select, update_where, exists_where, count_where, first_where,
  earliest_where, latest_where,
}
use piecesoflife.Store.Rows.{
  Db, Issue, Group, Status, draft, collecting, published, is_draft, is_collecting, is_published,
  SchedulerEventSpec, create_next_issue,
}
use piecesoflife.Store.Exec.{
  Result, ok, err, Exec, no_rows, foreign_key_violation, pure, raise, query, exec, get_now,
  transaction, ◌>>=◌, ◌>>◌,
}
use piecesoflife.Store.Sql.{first_row, insert_event, delete_events, is_pending_in_group}

abbrev pub is_issue : ℕ → Issue → Bool
is_issue id iss = iss.id == id

abbrev pub in_group : ℕ → Issue → Bool
in_group group_id iss = iss.group_id == group_id

abbrev pub new_issue : Db → ℕ → Option String → ℕ → ℕ → ℕ → ℕ → ℕ → Issue
new_issue db group_id title month year opens_at deadline now = record {
  id = suc db.issue_seq;
  group_id = group_id;
  title = title;
  month = month;
  year = year;
  status = draft;
  opens_at = opens_at;
  deadline = deadline;
  published_at = none;
  created_at = now;
  questions_curated_at = none;
  count_admin_in = true;
}

-- INSERT INTO issues (…): the status is the column's default, and the group must exist.
unfoldable pub insert_issue : ℕ → Option String → ℕ → ℕ → ℕ → ℕ → ℕ → Db → Result (ℕ × Db)
insert_issue group_id title month year opens_at deadline now db =
    if exists_where (λ (g : Group). g.id == group_id) db.groups
    then ok (
      suc db.issue_seq,
      record db {
        issues = db.issues ++ new_issue db group_id title month year opens_at deadline now ∷ [];
        issue_seq = suc db.issue_seq;
      },
    )
    else err foreign_key_violation

unfoldable pub create_issue : ℕ → Option String → ℕ → ℕ → ℕ → ℕ → Exec ℕ
create_issue group_id title month year opens_at deadline = do
  now ← get_now
  exec (insert_issue group_id title month year opens_at deadline now)

unfoldable pub get_issue_by_id : ℕ → Exec Issue
get_issue_by_id id = query (λ db. first_row (first_where (is_issue id) db.issues))

-- The newest of several comes first.
unfoldable pub get_issue_by_month_year : ℕ → ℕ → ℕ → Exec Issue
get_issue_by_month_year group_id month year = query (λ db. first_row (
    latest_where (λ iss. in_group group_id iss && iss.month == month && iss.year == year)
      (λ iss. iss.created_at) db.issues))

-- status = 'collecting' OR (status = 'draft' AND opens_at <= ?)
abbrev pub is_active : ℕ → ℕ → Issue → Bool
is_active group_id now iss =
    in_group group_id iss
    && (is_collecting iss.status || is_draft iss.status && leb iss.opens_at now)

unfoldable pub get_active_issue : ℕ → Exec Issue
get_active_issue group_id = do
  now ← get_now
  query (λ db. first_row (first_where (is_active group_id now) db.issues))

unfoldable pub has_active_issue : ℕ → Exec Bool
has_active_issue group_id = do
  now ← get_now
  query (λ db. ok (exists_where (is_active group_id now) db.issues))

abbrev pub is_draft_of : ℕ → Issue → Bool
is_draft_of group_id iss = in_group group_id iss && is_draft iss.status

unfoldable pub get_upcoming_draft_issue : ℕ → Exec (Option Issue)
get_upcoming_draft_issue group_id = do
  now ← get_now
  query (λ db. ok (
      earliest_where (λ iss. is_draft_of group_id iss && ltb now iss.opens_at) (λ iss. iss.opens_at)
        db.issues))

-- The publication time of a published issue.
abbrev pub published_time : Issue → ℕ
published_time iss = elim iss.published_at [ none ↦ 0 | some t ↦ t ]

unfoldable pub get_latest_published_issue : ℕ → Exec (Option Issue)
get_latest_published_issue group_id = query (λ db. ok (
    latest_where
      (λ iss. in_group group_id iss && is_published iss.status && not (is_none iss.published_at))
      published_time db.issues))

unfoldable pub get_next_draft_issue : ℕ → Exec (Option Issue)
get_next_draft_issue group_id =
    query (λ db. ok (earliest_where (is_draft_of group_id) (λ iss. iss.opens_at) db.issues))

abbrev pub is_collecting_of : ℕ → Issue → Bool
is_collecting_of group_id iss = in_group group_id iss && is_collecting iss.status

unfoldable pub has_collecting_issue : ℕ → Exec Bool
has_collecting_issue group_id =
    query (λ db. ok (exists_where (is_collecting_of group_id) db.issues))

-- UPDATE issues SET … WHERE …, and the number of rows that it changed
unfoldable pub update_issues : (Issue → Bool) → (Issue → Issue) → Db → Result (ℕ × Db)
update_issues p f db =
    ok (count_where p db.issues, record db { issues = update_where p f db.issues })

-- `RowsAffected`: anything but one row is sql.ErrNoRows.
unfoldable pub expect_one : ℕ → Exec (Unit {0})
expect_one n = if n == 1 then pure tt else raise no_rows

-- An update that must hit one row exactly.
unfoldable pub update_one_issue : (Issue → Bool) → (Issue → Issue) → Exec (Unit {0})
update_one_issue p f = do n ← exec (update_issues p f); expect_one n

abbrev pub is_draft_row : ℕ → Issue → Bool
is_draft_row id iss = is_issue id iss && is_draft iss.status

abbrev pub reschedule : ℕ → ℕ → ℕ → ℕ → Issue → Issue
reschedule month year opens_at deadline iss = record iss {
  month = month;
  year = year;
  opens_at = opens_at;
  deadline = deadline;
}

unfoldable pub update_issue_schedule : ℕ → ℕ → ℕ → ℕ → ℕ → Exec (Unit {0})
update_issue_schedule id month year opens_at deadline =
    update_one_issue (is_draft_row id) (reschedule month year opens_at deadline)

-- COALESCE(?, column)
abbrev pub coalesce {ℓ} : {A : Type ℓ} → Option A → A → A
coalesce none a = a
coalesce (some b) a = b

abbrev pub coalesce_title : Option String → Option String → Option String
coalesce_title none t = t
coalesce_title (some s) t = some s

unfoldable pub update_draft_issue : ℕ → Option String → ℕ → Exec (Unit {0})
update_draft_issue id title deadline =
    update_one_issue (is_draft_row id)
      (λ iss. record iss { title = coalesce_title title iss.title; deadline = deadline })

-- The loop over the specs of a round: each is inserted, and the first failure ends it.
unfoldable pub insert_events : ℕ → ℕ → List SchedulerEventSpec → Exec (Unit {0})
insert_events issue_id now [] = pure tt
insert_events issue_id now (spec ∷ specs) = do
  exec (insert_event (some issue_id) spec.event_type spec.scheduled_at now)
  insert_events issue_id now specs

abbrev pub is_draft_of_group : ℕ → ℕ → Issue → Bool
is_draft_of_group id group_id iss = is_issue id iss && in_group group_id iss && is_draft iss.status

abbrev pub open_early : Bool → Option String → ℕ → ℕ → ℕ → ℕ → Issue → Issue
open_early update_title title month year opens_at deadline iss = record iss {
  title = if update_title then title else iss.title;
  month = month;
  year = year;
  opens_at = opens_at;
  deadline = deadline;
  status = collecting;
}

unfoldable pub open_draft_early :
    ℕ → ℕ → Bool → Option String → ℕ → ℕ → ℕ → ℕ → List SchedulerEventSpec → Exec (Unit {0})
open_draft_early group_id issue_id update_title title month year opens_at deadline events = do
  now ← get_now
  transaction (do
    update_one_issue (is_draft_of_group issue_id group_id)
        (open_early update_title title month year opens_at deadline)
    exec (λ db. delete_events (is_pending_in_group db group_id create_next_issue) db)
    insert_events issue_id now events)

-- ORDER BY year DESC, month DESC, id DESC
abbrev pub edition_before : Issue → Issue → Bool
edition_before x y =
    if x.year == y.year
    then if x.month == y.month then ltb y.id x.id else ltb y.month x.month
    else ltb y.year x.year

abbrev pub insert_edition : Issue → List Issue → List Issue
insert_edition x [] = x ∷ []
insert_edition x (y ∷ ys) =
    let rest = insert_edition x ys in if edition_before x y then x ∷ y ∷ ys else y ∷ rest

abbrev pub by_edition : List Issue → List Issue
by_edition [] = []
by_edition (x ∷ xs) = insert_edition x (by_edition xs)

abbrev pub same_status : Status → Status → Bool
same_status draft s = is_draft s
same_status collecting s = is_collecting s
same_status published s = is_published s

abbrev pub has_status : Option Status → Issue → Bool
has_status none iss = true
has_status (some s) iss = same_status s iss.status

unfoldable pub list_issues : ℕ → Option Status → Exec (List Issue)
list_issues group_id status = query (λ db.
    ok (by_edition (select (λ iss. in_group group_id iss && has_status status iss) db.issues)))

unfoldable pub update_issue : ℕ → Option String → Option ℕ → Exec (Unit {0})
update_issue id title deadline = do
  n ← exec (
      update_issues (is_issue id) (λ iss. record iss {
        title = coalesce_title title iss.title;
        deadline = coalesce deadline iss.deadline;
      }))
  pure tt

unfoldable pub set_issue_status : ℕ → Status → Exec (Unit {0})
set_issue_status id status = do
  n ← exec (update_issues (is_issue id) (λ iss. record iss { status = status }))
  pure tt

unfoldable pub publish_issue : ℕ → Exec (Unit {0})
publish_issue id = do
  now ← get_now
  n ← exec (
      update_issues (is_issue id)
        (λ iss. record iss { status = published; published_at = some now }))
  pure tt
