-- ===== src/Store/Questions/Curation/SameIssues.antt =====
-- internal/store/question_curation.go: the questions of an issue come about without a change of the
-- issues.
use piecesoflife.Prelude.{ℕ, ◌≡◌, refl, ◌∙◌, String, Bool, true, false, Option, List, [], ◌∷◌}
use piecesoflife.Store.Rows.{Db}
use piecesoflife.Store.Tables.{Source, QuestionBank, DefaultQuestion}
use piecesoflife.Store.Exec.{query_write}
use piecesoflife.Store.Exec.Respects.{
  IsPreorder, Respects, Respects-exec, respects_rules, Grants, Grants-ok, grants_rules,
}
use piecesoflife.Store.Questions.{insert_question}
use piecesoflife.Store.Questions.Bank.{use_bank_question}
use piecesoflife.Store.Questions.Curation.{
  Drawn, draw, draw_categories, draw_more, select_random_unused_questions_by, add_defaults,
  stitch_defaults, add_bank_questions, fill_slots,
}

-- The issues stay as they are.
abbrev SameIssues : Db → Db → Type 0
SameIssues d e = e.issues ≡ d.issues

SameIssues-preorder : IsPreorder SameIssues
SameIssues-preorder = record { same = λ d. refl; chain = λ d e f p q. q ∙ p }

insert_question-SameIssues :
    (issue_id : ℕ) (text : String) (category : Option String) (source : Source) (user : Option ℕ)
    (n : ℕ) (d : Db)
    → Grants SameIssues d (insert_question issue_id text category source user n d)
unfolding insert_question
insert_question-SameIssues issue_id text category source user n d =
    search (grants_rules, refl) depth 9

use_bank_question-SameIssues : (id : ℕ) (d : Db) → Grants SameIssues d (use_bank_question id d)
unfolding use_bank_question
use_bank_question-SameIssues id d = Grants-ok refl

ruleset same_rules = (
  respects_rules, SameIssues-preorder, Respects-exec, insert_question-SameIssues,
  use_bank_question-SameIssues,
)

add_defaults-Respects :
    (issue_id n : ℕ) (qs : List DefaultQuestion) → Respects SameIssues (add_defaults issue_id n qs)
unfolding add_defaults
add_defaults-Respects issue_id n [] = search same_rules
add_defaults-Respects issue_id n (q ∷ qs) =
    search (same_rules, λ (m : ℕ). add_defaults-Respects issue_id m qs) depth 9

pub stitch_defaults-Respects :
    (group_id issue_id : ℕ) (b : Bool) (n : ℕ)
    → Respects SameIssues (stitch_defaults group_id issue_id b n)
unfolding stitch_defaults
stitch_defaults-Respects group_id issue_id true n = search same_rules
stitch_defaults-Respects group_id issue_id false n =
    search (same_rules, add_defaults-Respects) depth 9

add_bank_questions-Respects :
    (issue_id n : ℕ) (qs : List QuestionBank)
    → Respects SameIssues (add_bank_questions issue_id n qs)
unfolding add_bank_questions
add_bank_questions-Respects issue_id n [] = search same_rules
add_bank_questions-Respects issue_id n (q ∷ qs) =
    search (same_rules, λ (m : ℕ). add_bank_questions-Respects issue_id m qs) depth 12

module _ (group_id : ℕ) where
  draw-Respects : (p : QuestionBank → Bool) (n : ℕ) → Respects SameIssues (draw query_write p n)
  unfolding draw
  draw-Respects p n = search same_rules depth 9

  draw_categories-Respects :
      (count : ℕ) (cs : List String) (d : Drawn)
      → Respects SameIssues (draw_categories query_write group_id count cs d)
  unfolding draw_categories
  draw_categories-Respects count [] d = search same_rules
  draw_categories-Respects count (c ∷ cs) d =
      search (same_rules, draw-Respects, λ (e : Drawn). draw_categories-Respects count cs e) depth 9

  draw_more-Respects :
      (p : QuestionBank → Bool) (count : ℕ) (d : Drawn)
      → Respects SameIssues (draw_more query_write p count d)
  unfolding draw_more
  draw_more-Respects p count d = search (same_rules, draw-Respects) depth 9

  select-Respects :
      (count : ℕ)
      → Respects SameIssues (select_random_unused_questions_by query_write group_id count)
  unfolding select_random_unused_questions_by
  select-Respects count = search (same_rules, draw_categories-Respects, draw_more-Respects) depth 12

  pub fill_slots-Respects :
      (issue_id target n : ℕ) → Respects SameIssues (fill_slots group_id issue_id target n)
  unfolding fill_slots
  fill_slots-Respects issue_id target n =
      search (same_rules, select-Respects, add_bank_questions-Respects) depth 9
