-- ===== src/Store/WellFormed/Asked.antt =====
-- The operations on the questions, the bank and the defaults leave the tables of the rounds
-- well-formed.
use piecesoflife.Prelude.{ℕ, suc, String, Bool, Option, none, some, List, [], ◌∷◌, refl}
use piecesoflife.Store.Rows.{Db}
use piecesoflife.Store.Exec.{Result, ok, err}
use piecesoflife.Store.Exec.Respects.{Respects, Respects-bind, Respects-exec, Grants, grants_rules}
use piecesoflife.Store.WellFormed.{KeepsForm, KeepsForm-preorder, aside-KeepsForm, beside_rules}
use piecesoflife.Store.Tables.{Source}
use piecesoflife.Store.Questions.{
  create_question, insert_question, update_question, update_questions, reorder_questions,
  delete_question, remove_questions, delete_questions_by_issue, set_orders, reorder, expect_some,
  update_questions, count_questions, place_question,
}
use piecesoflife.Store.Questions.Bank.{
  mark_bank_question_used, use_bank_question, create_bank_question, insert_bank_question,
  update_bank_question, rewrite_bank_question, delete_bank_question,
}
use piecesoflife.Store.Questions.Defaults.{
  create_default_question, set_default_question_enabled, update_defaults, update_default_question,
  delete_default_question, remove_default, reorder_default_questions,
  set_all_default_questions_enabled, insert_default, name_duplicate, set_text, set_enabled,
  reword_default, place_default, expect_row,
}

pub create_question-Respects :
    (a : ℕ) (b : String) (c : Option String) (d : Source) (e : Option ℕ) (f : ℕ)
    → Respects KeepsForm (create_question a b c d e f)
unfolding create_question insert_question
create_question-Respects a b c d e f = search beside_rules depth 12

pub update_question-Respects : (a : ℕ) (b : String) → Respects KeepsForm (update_question a b)
unfolding update_question update_questions
update_question-Respects a b = search beside_rules depth 12

pub delete_question-Respects : (a : ℕ) → Respects KeepsForm (delete_question a)
unfolding delete_question remove_questions
delete_question-Respects a = search beside_rules depth 12

pub delete_questions_by_issue-Respects : (a : ℕ) → Respects KeepsForm (delete_questions_by_issue a)
unfolding delete_questions_by_issue remove_questions
delete_questions_by_issue-Respects a = search beside_rules depth 12

pub mark_bank_question_used-Respects : (a : ℕ) → Respects KeepsForm (mark_bank_question_used a)
unfolding mark_bank_question_used use_bank_question
mark_bank_question_used-Respects a = search beside_rules depth 12

pub create_bank_question-Respects :
    (a : ℕ) (b : String) (c : String) → Respects KeepsForm (create_bank_question a b c)
unfolding create_bank_question insert_bank_question
create_bank_question-Respects a b c = search beside_rules depth 12

pub update_bank_question-Respects :
    (a : ℕ) (b : ℕ) (c : String) (d : String) → Respects KeepsForm (update_bank_question a b c d)
unfolding update_bank_question rewrite_bank_question
update_bank_question-Respects a b c d = search beside_rules depth 12

pub delete_bank_question-Respects : (a : ℕ) (b : ℕ) → Respects KeepsForm (delete_bank_question a b)
unfolding delete_bank_question
delete_bank_question-Respects a b = search beside_rules depth 12

pub set_default_question_enabled-Respects :
    (a : ℕ) (b : ℕ) (c : Bool) → Respects KeepsForm (set_default_question_enabled a b c)
unfolding set_default_question_enabled expect_row update_defaults
set_default_question_enabled-Respects a b c = search beside_rules depth 12

pub delete_default_question-Respects :
    (a : ℕ) (b : ℕ) → Respects KeepsForm (delete_default_question a b)
unfolding delete_default_question remove_default expect_row
delete_default_question-Respects a b = search beside_rules depth 12

pub set_all_default_questions_enabled-Respects :
    (a : ℕ) (b : Bool) → Respects KeepsForm (set_all_default_questions_enabled a b)
unfolding set_all_default_questions_enabled update_defaults
set_all_default_questions_enabled-Respects a b = search beside_rules depth 12

module _ (set : ℕ → ℕ → Db → Result (ℕ × Db))
    (kept : (i j : ℕ) (d : Db) → Grants KeepsForm d (set i j d)) where
  set_orders-Respects : (i : ℕ) (ids : List ℕ) → Respects KeepsForm (set_orders set i ids)
  unfolding set_orders expect_some
  set_orders-Respects i [] = search beside_rules
  set_orders-Respects i (id ∷ ids) =
      Respects-bind KeepsForm-preorder _ _ (Respects-exec KeepsForm-preorder _ (kept id i)) (λ n.
        Respects-bind KeepsForm-preorder _ _ (search beside_rules)
          (λ _. set_orders-Respects (suc i) ids))

  reorder-Respects : (count : Db → ℕ) (ids : List ℕ) → Respects KeepsForm (reorder count set ids)
  unfolding reorder
  reorder-Respects count ids = search (beside_rules, set_orders-Respects) depth 12

place_question-KeepsForm :
    (issue_id i j : ℕ) (d : Db) → Grants KeepsForm d (place_question issue_id i j d)
unfolding update_questions
place_question-KeepsForm issue_id i j d = search (grants_rules, aside-KeepsForm d, refl)

pub reorder_questions-Respects : (a : ℕ) (b : List ℕ) → Respects KeepsForm (reorder_questions a b)
unfolding reorder_questions
reorder_questions-Respects a b =
    reorder-Respects (place_question a) (place_question-KeepsForm a) (count_questions a) b

place_default-KeepsForm :
    (group_id i j : ℕ) (d : Db) → Grants KeepsForm d (place_default group_id i j d)
unfolding update_defaults
place_default-KeepsForm group_id i j d = search (grants_rules, aside-KeepsForm d, refl)

pub reorder_default_questions-Respects :
    (a : ℕ) (b : List ℕ) → Respects KeepsForm (reorder_default_questions a b)
unfolding reorder_default_questions
reorder_default_questions-Respects a b =
    reorder-Respects (place_default a) (place_default-KeepsForm a) _ b

name_duplicate-Respects : {A : Type 0} (r : Result A) → Respects KeepsForm (name_duplicate r)
unfolding name_duplicate
name_duplicate-Respects (ok a) = search beside_rules
name_duplicate-Respects (err e) = search beside_rules

pub create_default_question-Respects :
    (a : ℕ) (b : String) → Respects KeepsForm (create_default_question a b)
unfolding create_default_question insert_default
create_default_question-Respects a b = search (beside_rules, name_duplicate-Respects) depth 12

set_text-Respects : (a b : ℕ) (c : Option String) → Respects KeepsForm (set_text a b c)
unfolding set_text reword_default update_defaults expect_row
set_text-Respects a b none = search beside_rules
set_text-Respects a b (some c) = search (beside_rules, name_duplicate-Respects) depth 12

set_enabled-Respects : (a b : ℕ) (c : Option Bool) → Respects KeepsForm (set_enabled a b c)
unfolding set_enabled
set_enabled-Respects a b none = search beside_rules
set_enabled-Respects a b (some c) = set_default_question_enabled-Respects a b c

pub update_default_question-Respects :
    (a b : ℕ) (c : Option String) (d : Option Bool)
    → Respects KeepsForm (update_default_question a b c d)
unfolding update_default_question
update_default_question-Respects a b none none = search beside_rules
update_default_question-Respects a b none (some d) =
    search (beside_rules, set_text-Respects, set_enabled-Respects) depth 12
update_default_question-Respects a b (some c) d =
    search (beside_rules, set_text-Respects, set_enabled-Respects) depth 12
