-- ===== src/Store/Responses/Progress.antt =====
-- internal/store/response.go: listings of answers and blocks, and who has answered.
use Prim.Native.String.{compare}
use text.Mathlib.Text.{is_le}
use piecesoflife.Prelude.{
  ℕ, suc, String, Bool, not, ◌&&◌, ◌||◌, Option, none, some, List, [], ◌∷◌, ◌++◌, ◌==◌,
  if◌then◌else◌, leb, ltb, is_none, select, delete_where, exists_where, count_where, first_where,
  order_by, sort_before, limit,
}
use piecesoflife.Store.Rows.{Db, Issue}
use piecesoflife.Store.Tables.{
  User, Membership, Role, is_admin, Question, Response, ResponseBlock, BlockType, photo,
  is_block_type,
}
use piecesoflife.Store.Exec.{ok, Exec, query, exec, pure, transaction, ◌>>=◌, ◌>>◌}
use piecesoflife.Store.Sql.{first_row}
use piecesoflife.Store.Issues.{is_issue, update_issues}
use piecesoflife.Store.Questions.{is_question, of_issue}
use piecesoflife.Store.Responses.{is_response, of_response, is_block, update_blocks, with_blocks}

-- The order of a response's question, if the question is one of the issue's: the JOIN.
abbrev pub question_of : ℕ → Db → Response → Option Question
question_of issue_id db r =
    first_where (λ q. is_question r.question_id q && of_issue issue_id q) db.content.questions

abbrev pub answers_issue : ℕ → Db → Response → Bool
answers_issue issue_id db r = not (is_none (question_of issue_id db r))

abbrev pub question_order : ℕ → Db → Response → ℕ
question_order issue_id db r = elim (question_of issue_id db r) [ none ↦ 0 | some q ↦ q.sort_order ]

-- ORDER BY q.sort_order, r.user_id
abbrev pub answer_before : ℕ → Db → Response → Response → Bool
answer_before issue_id db x y =
    if question_order issue_id db x == question_order issue_id db y
    then leb x.user_id y.user_id
    else ltb (question_order issue_id db x) (question_order issue_id db y)

unfoldable pub list_responses_by_issue : ℕ → Bool → Exec (List Response)
list_responses_by_issue issue_id only_submitted = query (λ db. ok (
    sort_before (answer_before issue_id db) (
      select (λ r. answers_issue issue_id db r && not (only_submitted && r.is_draft))
        db.content.responses)))

unfoldable pub list_user_responses_for_issue : ℕ → ℕ → Exec (List Response)
list_user_responses_for_issue user_id issue_id = query (λ db. ok (
    order_by (question_order issue_id db)
      (select (λ r. answers_issue issue_id db r && r.user_id == user_id) db.content.responses)))

-- A photo of a submitted answer to the issue, with a file.
abbrev pub is_photo_of : ℕ → Db → ResponseBlock → Bool
is_photo_of issue_id db b =
    is_block_type b.block_type photo
    && not (is_none b.file_path)
    && exists_where
        (λ r. is_response b.response_id r && answers_issue issue_id db r && not r.is_draft)
        db.content.responses

abbrev pub file_paths : List ResponseBlock → List String
file_paths [] = []
file_paths (b ∷ bs) = elim b.file_path [ none ↦ file_paths bs | some p ↦ p ∷ file_paths bs ]

-- ORDER BY rb.created_at DESC LIMIT ?
abbrev pub newest_paths : ℕ → List ResponseBlock → List String
newest_paths n bs = limit n (file_paths (sort_before (λ x y. leb y.created_at x.created_at) bs))

unfoldable pub list_photos_for_issue : ℕ → ℕ → Exec (List String)
list_photos_for_issue issue_id n =
    query (λ db. ok (newest_paths n (select (is_photo_of issue_id db) db.content.blocks)))

unfoldable pub list_uncovered_photos_for_issue : ℕ → ℕ → Exec (List String)
list_uncovered_photos_for_issue issue_id n = query (λ db. ok (
    newest_paths n (select (λ b. is_photo_of issue_id db b && not b.is_covered) db.content.blocks)))

pub record MemberProgress : Type 0 where
  pub user_id : ℕ
  pub name : String
  pub role : Role
  pub responded : Bool

pub record SubmissionProgress : Type 0 where
  pub total_members : ℕ
  pub responded : ℕ
  pub count_admin_in : Bool
  pub members : List MemberProgress

abbrev pub has_responded : ℕ → Db → ℕ → Bool
has_responded issue_id db user_id =
    exists_where (λ r. answers_issue issue_id db r && r.user_id == user_id && not r.is_draft)
      db.content.responses

abbrev pub member_progress : ℕ → Db → Membership → User → MemberProgress
member_progress issue_id db m u = record {
  user_id = u.id;
  name = u.name;
  role = m.role;
  responded = has_responded issue_id db u.id;
}

abbrev pub with_user : ℕ → Db → Membership → Option User → List MemberProgress
with_user issue_id db m none = []
with_user issue_id db m (some u) = if u.is_active then member_progress issue_id db m u ∷ [] else []

-- memberships JOIN users, where both are active
abbrev pub roster_rows : ℕ → ℕ → Db → List Membership → List MemberProgress
roster_rows issue_id group_id db [] = []
roster_rows issue_id group_id db (m ∷ ms) =
    let rest = roster_rows issue_id group_id db ms in
    if m.group_id == group_id && m.is_active
    then with_user issue_id db m (first_where (λ (u : User). u.id == m.user_id) db.users) ++ rest
    else rest

-- ORDER BY (m.role = 'admin'), u.name
abbrev pub roster_before : MemberProgress → MemberProgress → Bool
roster_before x y =
    if is_admin x.role
    then is_admin y.role && is_le (compare x.name y.name)
    else is_admin y.role || is_le (compare x.name y.name)

abbrev pub roster : ℕ → Option Issue → Db → List MemberProgress
roster issue_id none db = []
roster issue_id (some iss) db =
    sort_before roster_before (roster_rows issue_id iss.group_id db db.content.memberships)

-- The loop over the roster: admins count only if the round opts them in.
abbrev pub counts_in : Bool → MemberProgress → Bool
counts_in count_admin_in m = not (is_admin m.role) || count_admin_in

unfoldable pub tally : Bool → List MemberProgress → SubmissionProgress
tally count_admin_in members = record {
  total_members = count_where (counts_in count_admin_in) members;
  responded = count_where (λ m. counts_in count_admin_in m && m.responded) members;
  count_admin_in = count_admin_in;
  members = members;
}

unfoldable pub get_submission_progress : ℕ → Exec SubmissionProgress
get_submission_progress issue_id = do
  iss ← query (λ db. first_row (first_where (is_issue issue_id) db.issues))
  members ← query (λ db. ok (roster issue_id (first_where (is_issue issue_id) db.issues) db))
  pure (tally iss.count_admin_in members)

unfoldable pub set_issue_count_admin_in : ℕ → Bool → Exec (Unit {0})
set_issue_count_admin_in issue_id on = do
  n ← exec (update_issues (is_issue issue_id) (λ iss. record iss { count_admin_in = on }))
  pure tt

unfoldable pub count_blocks_for_response_type : ℕ → BlockType → Exec ℕ
count_blocks_for_response_type response_id block_type = query (λ db. ok (
    count_where (λ b. of_response response_id b && is_block_type b.block_type block_type)
      db.content.blocks))

unfoldable pub get_block_by_id : ℕ → Exec ResponseBlock
get_block_by_id id = query (λ db. first_row (first_where (is_block id) db.content.blocks))

unfoldable pub list_blocks_by_response : ℕ → Exec (List ResponseBlock)
list_blocks_by_response response_id =
    query
      (λ db. ok (order_by (λ b. b.sort_order) (select (of_response response_id) db.content.blocks)))

unfoldable pub update_block : ℕ → Option String → Option String → Exec (Unit {0})
update_block id content caption =
    update_blocks (is_block id) (λ b. record b { content = content; caption = caption })

unfoldable pub update_block_cover : ℕ → Bool → Option String → Exec (Unit {0})
update_block_cover id is_covered cover_note =
    update_blocks (is_block id) (λ b. record b { is_covered = is_covered; cover_note = cover_note })

unfoldable pub delete_block : ℕ → Exec (Unit {0})
delete_block id =
    exec (λ db. ok (tt, with_blocks (delete_where (is_block id) db.content.blocks) db))

-- The loop over the ids: an id of another response changes nothing.
unfoldable pub place_blocks : ℕ → ℕ → List ℕ → Exec (Unit {0})
place_blocks response_id i [] = pure tt
place_blocks response_id i (id ∷ ids) = do
  update_blocks (λ b. is_block id b && of_response response_id b) (λ b. record b { sort_order = i })
  place_blocks response_id (suc i) ids

unfoldable pub reorder_blocks : ℕ → List ℕ → Exec (Unit {0})
reorder_blocks response_id ids = transaction (place_blocks response_id 0 ids)
