-- ===== src/Store/Questions/Defaults.antt =====
-- internal/store/default_question.go: the prompts that every new issue of a group begins with.
use text.Mathlib.Text.{◌==◌ as same_text}
use piecesoflife.Prelude.{
  ℕ, suc, String, Bool, true, false, not, ◌&&◌, Option, none, some, List, [], ◌∷◌, ◌++◌, ◌==◌,
  if◌then◌else◌, delete_where, update_where, exists_where, count_where, select, order_by, max_where,
}
use piecesoflife.Store.Rows.{Db, Group}
use piecesoflife.Store.Tables.{DefaultQuestion}
use piecesoflife.Store.Exec.{
  Err, Result, ok, err, Exec, unique_violation, foreign_key_violation, duplicate_text, no_rows,
  pure, raise, query, exec, attempt, transaction, ◌>>=◌, ◌>>◌,
}
use piecesoflife.Store.Questions.{reorder}

abbrev pub with_defaults : List DefaultQuestion → Db → Db
with_defaults rows db = record db { content = record db.content { default_questions = rows } }

abbrev pub default_in_group : ℕ → DefaultQuestion → Bool
default_in_group group_id q = q.group_id == group_id

-- ORDER BY sort_order, id; the rows of a table stand in the order of their ids.
abbrev pub group_defaults : ℕ → Db → List DefaultQuestion
group_defaults group_id db =
    order_by (λ q. q.sort_order) (select (default_in_group group_id) db.content.default_questions)

unfoldable pub list_default_questions : ℕ → Exec (List DefaultQuestion)
list_default_questions group_id = query (λ db. ok (group_defaults group_id db))

unfoldable pub list_enabled_default_questions : ℕ → Exec (List DefaultQuestion)
list_enabled_default_questions group_id = do
  all ← list_default_questions group_id
  pure (select (λ q. q.enabled) all)

-- `isUniqueViolation`
abbrev pub is_unique_violation : Err → Bool
is_unique_violation unique_violation = true
is_unique_violation _ = false

-- A collision of texts gets its own error.
unfoldable pub name_duplicate : {A : Type 0} → Result A → Exec A
name_duplicate (ok a) = pure a
name_duplicate (err e) = raise (if is_unique_violation e then duplicate_text else e)

-- UNIQUE(group_id, text)
abbrev pub same_default : ℕ → String → DefaultQuestion → Bool
same_default group_id text q = default_in_group group_id q && same_text q.text text

-- COALESCE(MAX(sort_order) + 1, 0)
abbrev pub after_last : Option ℕ → ℕ
after_last none = 0
after_last (some m) = suc m

abbrev pub add_default : ℕ → String → Db → Db
add_default group_id text db = record db {
  content = record db.content {
    default_questions =
        db.content.default_questions
        ++ record {
          id = suc db.content.default_seq;
          group_id = group_id;
          text = text;
          enabled = true;
          sort_order = after_last (
              max_where (default_in_group group_id) (λ q. q.sort_order)
                db.content.default_questions);
        }
          ∷ [];
    default_seq = suc db.content.default_seq;
  };
}

unfoldable pub insert_default : ℕ → String → Db → Result (ℕ × Db)
insert_default group_id text db =
    if exists_where (same_default group_id text) db.content.default_questions
    then err unique_violation
    else if exists_where (λ (g : Group). g.id == group_id) db.groups
    then ok (suc db.content.default_seq, add_default group_id text db)
    else err foreign_key_violation

unfoldable pub create_default_question : ℕ → String → Exec ℕ
create_default_question group_id text = do
  r ← attempt (exec (insert_default group_id text))
  name_duplicate r

abbrev pub is_default_of : ℕ → ℕ → DefaultQuestion → Bool
is_default_of group_id id q = q.id == id && default_in_group group_id q

-- UPDATE default_questions SET … WHERE …, and the number of rows that it changed
unfoldable pub update_defaults :
    (DefaultQuestion → Bool) → (DefaultQuestion → DefaultQuestion) → Db → Result (ℕ × Db)
update_defaults p f db = ok (
  count_where p db.content.default_questions,
  with_defaults (update_where p f db.content.default_questions) db,
)

-- Another default of the group may not have the text.
unfoldable pub reword_default : ℕ → ℕ → String → Db → Result (ℕ × Db)
reword_default group_id id text db =
    if exists_where (is_default_of group_id id) db.content.default_questions
      && exists_where (λ q. same_default group_id text q && not (q.id == id))
          db.content.default_questions
    then err unique_violation
    else update_defaults (is_default_of group_id id) (λ q. record q { text = text }) db

-- `RowsAffected() == 0` is sql.ErrNoRows.
unfoldable pub expect_row : ℕ → Exec (Unit {0})
expect_row n = if n == 0 then raise no_rows else pure tt

unfoldable pub set_text : ℕ → ℕ → Option String → Exec (Unit {0})
set_text group_id id none = pure tt
set_text group_id id (some text) = do
  r ← attempt (exec (reword_default group_id id text))
  n ← name_duplicate r
  expect_row n

abbrev pub enable : Bool → DefaultQuestion → DefaultQuestion
enable b q = record q { enabled = b }

unfoldable pub set_default_question_enabled : ℕ → ℕ → Bool → Exec (Unit {0})
set_default_question_enabled group_id id enabled = do
  n ← exec (update_defaults (is_default_of group_id id) (enable enabled))
  expect_row n

unfoldable pub set_enabled : ℕ → ℕ → Option Bool → Exec (Unit {0})
set_enabled group_id id none = pure tt
set_enabled group_id id (some enabled) = set_default_question_enabled group_id id enabled

unfoldable pub update_default_question : ℕ → ℕ → Option String → Option Bool → Exec (Unit {0})
update_default_question group_id id none none = pure tt
update_default_question group_id id text enabled =
    transaction (do set_text group_id id text; set_enabled group_id id enabled)

unfoldable pub remove_default : ℕ → ℕ → Db → Result (ℕ × Db)
remove_default group_id id db = ok (
  count_where (is_default_of group_id id) db.content.default_questions,
  with_defaults (delete_where (is_default_of group_id id) db.content.default_questions) db,
)

unfoldable pub delete_default_question : ℕ → ℕ → Exec (Unit {0})
delete_default_question group_id id = do n ← exec (remove_default group_id id); expect_row n

abbrev pub place_default : ℕ → ℕ → ℕ → Db → Result (ℕ × Db)
place_default group_id id i =
    update_defaults (is_default_of group_id id) (λ q. record q { sort_order = i })

unfoldable pub reorder_default_questions : ℕ → List ℕ → Exec (Unit {0})
reorder_default_questions group_id ids =
    reorder (λ db. count_where (default_in_group group_id) db.content.default_questions)
      (place_default group_id) ids

unfoldable pub set_all_default_questions_enabled : ℕ → Bool → Exec (Unit {0})
set_all_default_questions_enabled group_id enabled = do
  n ← exec (update_defaults (default_in_group group_id) (enable enabled))
  pure tt
