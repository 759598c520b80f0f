-- ===== src/Store/Questions/Bank.antt =====
-- internal/store/question.go: the bank of questions of a group, and the answers to a question.
use Prim.Native.String.{compare}
use text.Mathlib.Text.{◌==◌ as same_text, is_le}
use piecesoflife.Prelude.{
  ℕ, suc, ◌-◌, ◌*◌, String, Bool, true, false, not, ◌&&◌, Option, none, some, List, [], ◌∷◌, ◌++◌,
  ◌==◌, if◌then◌else◌, delete_where, update_where, exists_where, count_where, select, map,
  sort_before, limit, offset,
}
use piecesoflife.Store.Rows.{Db, Group}
use piecesoflife.Store.Tables.{Question, QuestionBank, Response}
use piecesoflife.Store.Exec.{
  Result, ok, err, Exec, unique_violation, foreign_key_violation, pure, query, exec, ◌>>=◌,
}
use piecesoflife.Store.Questions.{of_issue}

abbrev pub with_bank : List QuestionBank → Db → Db
with_bank rows db = record db { content = record db.content { question_bank = rows } }

abbrev pub is_bank_question : ℕ → QuestionBank → Bool
is_bank_question id q = q.id == id

-- UPDATE question_bank SET used = 1 WHERE id = ?
unfoldable pub use_bank_question : ℕ → Db → Result (Unit {0} × Db)
use_bank_question id db = ok (
  tt,
  with_bank
      (update_where (is_bank_question id) (λ q. record q { used = true }) db.content.question_bank)
      db,
)

unfoldable pub mark_bank_question_used : ℕ → Exec (Unit {0})
mark_bank_question_used id = exec (use_bank_question id)

abbrev pub same_flag : Bool → Bool → Bool
same_flag true b = b
same_flag false b = not b

-- The optional filters of the listing.
abbrev pub has_category : Option String → QuestionBank → Bool
has_category none q = true
has_category (some c) q = same_text q.category c

abbrev pub has_used : Option Bool → QuestionBank → Bool
has_used none q = true
has_used (some u) q = same_flag q.used u

abbrev pub in_listing : ℕ → Option String → Option Bool → QuestionBank → Bool
in_listing group_id category used q =
    q.group_id == group_id && has_category category q && has_used used q

-- ORDER BY category, id; the rows of a table stand in the order of their ids.
abbrev pub by_category : List QuestionBank → List QuestionBank
by_category = sort_before (λ x y. is_le (compare x.category y.category))

-- One page of the bank, and how many questions there are in all. A negative OFFSET is 0 in SQLite.
unfoldable pub list_question_bank :
    ℕ → Option String → Option Bool → ℕ → ℕ → Exec (List QuestionBank × ℕ)
list_question_bank group_id category used page per_page = do
  total ←
      query (λ db. ok (count_where (in_listing group_id category used) db.content.question_bank))
  rows ← query (λ db. ok (
      limit per_page (
        offset ((page - 1) * per_page)
          (by_category (select (in_listing group_id category used) db.content.question_bank)))))
  pure (rows, total)

-- UNIQUE(group_id, text)
abbrev pub same_bank_text : ℕ → String → QuestionBank → Bool
same_bank_text group_id text q = q.group_id == group_id && same_text q.text text

abbrev pub add_bank_question : ℕ → String → String → Db → Db
add_bank_question group_id text category db = record db {
  content = record db.content {
    question_bank =
        db.content.question_bank
        ++ record {
          id = suc db.content.bank_seq;
          group_id = group_id;
          text = text;
          category = category;
          used = false;
        }
          ∷ [];
    bank_seq = suc db.content.bank_seq;
  };
}

unfoldable pub insert_bank_question : ℕ → String → String → Db → Result (ℕ × Db)
insert_bank_question group_id text category db =
    if exists_where (same_bank_text group_id text) db.content.question_bank
    then err unique_violation
    else if exists_where (λ (g : Group). g.id == group_id) db.groups
    then ok (suc db.content.bank_seq, add_bank_question group_id text category db)
    else err foreign_key_violation

unfoldable pub create_bank_question : ℕ → String → String → Exec ℕ
create_bank_question group_id text category = exec (insert_bank_question group_id text category)

abbrev pub is_bank_question_of : ℕ → ℕ → QuestionBank → Bool
is_bank_question_of group_id id q = is_bank_question id q && q.group_id == group_id

-- The text may not be that of another question of the group.
unfoldable pub rewrite_bank_question : ℕ → ℕ → String → String → Db → Result (Unit {0} × Db)
rewrite_bank_question group_id id text category db =
    if exists_where (is_bank_question_of group_id id) db.content.question_bank
      && exists_where (λ q. same_bank_text group_id text q && not (is_bank_question id q))
          db.content.question_bank
    then err unique_violation
    else ok (
      tt,
      with_bank
          (update_where (is_bank_question_of group_id id)
            (λ q. record q { text = text; category = category }) db.content.question_bank)
          db,
    )

unfoldable pub update_bank_question : ℕ → ℕ → String → String → Exec (Unit {0})
update_bank_question group_id id text category =
    exec (rewrite_bank_question group_id id text category)

unfoldable pub delete_bank_question : ℕ → ℕ → Exec (Unit {0})
delete_bank_question group_id id = exec (λ db.
    ok (tt, with_bank (delete_where (is_bank_question_of group_id id) db.content.question_bank) db))

-- questions LEFT JOIN responses … GROUP BY q.id: a question and the number of its answers
abbrev pub count_answers : Db → Question → ℕ × ℕ
count_answers db q =
    (q.id, count_where (λ (r : Response). r.question_id == q.id) db.content.responses)

unfoldable pub count_responses_by_question : ℕ → Exec (List (ℕ × ℕ))
count_responses_by_question issue_id =
    query (λ db. ok (map (count_answers db) (select (of_issue issue_id) db.content.questions)))
