-- ===== src/Store/Questions.antt =====
-- internal/store/question.go: the questions of an issue, and the bank of questions of a group.
pub mod Bank
pub mod Defaults
pub mod Curation
mod Sorted
pub mod Order
use piecesoflife.Prelude.{
  ℕ, suc, ◌+◌, ◌-◌, ◌*◌, String, Bool, true, false, not, ◌&&◌, Option, none, some, List, [], ◌∷◌,
  ◌++◌, ◌==◌, if◌then◌else◌, delete_where, update_where, exists_where, count_where, first_where,
  select, order_by, sort_before, limit, offset, length,
}
use piecesoflife.Store.Rows.{Db, Group}
use piecesoflife.Store.Tables.{Content, User, Question, QuestionBank, Source, Response}
use piecesoflife.Store.Exec.{
  Result, ok, err, Exec, unique_violation, foreign_key_violation, order_mismatch, pure, raise,
  query, query_write, exec, transaction, ◌>>=◌, ◌>>◌,
}
use piecesoflife.Store.Sql.{first_row, issue_exists}
use piecesoflife.Store.Emails.{reference_holds}

abbrev pub with_questions : List Question → Db → Db
with_questions rows db = record db { content = record db.content { questions = rows } }

abbrev pub new_question : Db → ℕ → String → Option String → Source → Option ℕ → ℕ → Question
new_question db issue_id text category source submitted_by sort_order = record {
  id = suc db.content.question_seq;
  issue_id = issue_id;
  text = text;
  category = category;
  source = source;
  submitted_by = submitted_by;
  sort_order = sort_order;
}

abbrev pub add_question : Question → Db → Db
add_question q db = record db {
  content = record db.content {
    questions = db.content.questions ++ q ∷ [];
    question_seq = suc db.content.question_seq;
  };
}

-- INSERT INTO questions (…) VALUES (…)
unfoldable pub insert_question :
    ℕ → String → Option String → Source → Option ℕ → ℕ → Db → Result (ℕ × Db)
insert_question issue_id text category source submitted_by sort_order db =
    if issue_exists db (some issue_id)
      && reference_holds submitted_by (λ id. exists_where (λ (u : User). u.id == id) db.users)
    then ok (
      suc db.content.question_seq,
      add_question (new_question db issue_id text category source submitted_by sort_order) db,
    )
    else err foreign_key_violation

unfoldable pub create_question : ℕ → String → Option String → Source → Option ℕ → ℕ → Exec ℕ
create_question issue_id text category source submitted_by sort_order =
    exec (insert_question issue_id text category source submitted_by sort_order)

abbrev pub is_question : ℕ → Question → Bool
is_question id q = q.id == id

abbrev pub of_issue : ℕ → Question → Bool
of_issue issue_id q = q.issue_id == issue_id

unfoldable pub get_question_by_id : ℕ → Exec Question
get_question_by_id id = query (λ db. first_row (first_where (is_question id) db.content.questions))

-- WHERE issue_id = ? ORDER BY sort_order
abbrev pub issue_questions : ℕ → Db → List Question
issue_questions issue_id db =
    order_by (λ q. q.sort_order) (select (of_issue issue_id) db.content.questions)

unfoldable pub list_questions_by_issue : ℕ → Exec (List Question)
list_questions_by_issue issue_id = query (λ db. ok (issue_questions issue_id db))

-- UPDATE questions SET … WHERE …, and the number of rows that it changed
unfoldable pub update_questions : (Question → Bool) → (Question → Question) → Db → Result (ℕ × Db)
update_questions p f db =
    ok (
      count_where p db.content.questions,
      with_questions (update_where p f db.content.questions) db,
    )

unfoldable pub update_question : ℕ → String → Exec (Unit {0})
update_question id text = do
  n ← exec (update_questions (is_question id) (λ q. record q { text = text }))
  pure tt

-- No id stands twice in the list.
abbrev pub check_unique_ids : List ℕ → Bool
check_unique_ids [] = true
check_unique_ids (id ∷ ids) = not (exists_where (λ j. j == id) ids) && check_unique_ids ids

-- `RowsAffected`: the id must be one of the rows.
unfoldable pub expect_some : ℕ → Exec (Unit {0})
expect_some n = if n == 0 then raise order_mismatch else pure tt

-- The loop `for i, id := range ids`, over the statement that gives row `id` the position `i`.
unfoldable pub set_orders : (ℕ → ℕ → Db → Result (ℕ × Db)) → ℕ → List ℕ → Exec (Unit {0})
set_orders set i [] = pure tt
set_orders set i (id ∷ ids) = do n ← exec (set id i); expect_some n; set_orders set (suc i) ids

-- The shape of both reorderings: count, compare, reject duplicates, rewrite.
unfoldable pub reorder : (Db → ℕ) → (ℕ → ℕ → Db → Result (ℕ × Db)) → List ℕ → Exec (Unit {0})
reorder count set ids = transaction (do
  n ← query_write (λ db. ok (count db))
  if n == length ids && check_unique_ids ids then set_orders set 0 ids else raise order_mismatch)

abbrev pub is_question_of : ℕ → ℕ → Question → Bool
is_question_of issue_id id q = is_question id q && of_issue issue_id q

abbrev pub place_question : ℕ → ℕ → ℕ → Db → Result (ℕ × Db)
place_question issue_id id i =
    update_questions (is_question_of issue_id id) (λ q. record q { sort_order = i })

abbrev pub count_questions : ℕ → Db → ℕ
count_questions issue_id db = count_where (of_issue issue_id) db.content.questions

unfoldable pub reorder_questions : ℕ → List ℕ → Exec (Unit {0})
reorder_questions issue_id ids = reorder (count_questions issue_id) (place_question issue_id) ids

-- responses.question_id REFERENCES questions(id), with no ON DELETE clause.
abbrev pub is_answered : Db → Question → Bool
is_answered db q = exists_where (λ (r : Response). r.question_id == q.id) db.content.responses

-- DELETE FROM questions WHERE …
unfoldable pub remove_questions : (Question → Bool) → Db → Result (Unit {0} × Db)
remove_questions p db =
    if exists_where (λ q. p q && is_answered db q) db.content.questions
    then err foreign_key_violation
    else ok (tt, with_questions (delete_where p db.content.questions) db)

unfoldable pub delete_question : ℕ → Exec (Unit {0})
delete_question id = exec (remove_questions (is_question id))

unfoldable pub delete_questions_by_issue : ℕ → Exec (Unit {0})
delete_questions_by_issue issue_id = exec (remove_questions (of_issue issue_id))
