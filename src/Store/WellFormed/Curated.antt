-- ===== src/Store/WellFormed/Curated.antt =====
-- The curation of a draft leaves the tables of the rounds well-formed.
use piecesoflife.Prelude.{
  ℕ, suc, String, Bool, true, false, Option, none, some, List, [], ◌∷◌, refl, ◌==◌, ◌&&◌,
  exists_where, Bool-cases, inl, inr,
}
use piecesoflife.Store.Rows.{Db}
use piecesoflife.Store.Exec.{query_write}
use piecesoflife.Store.Exec.Respects.{Respects, Respects-bind, Grants, Grants-ok, Grants-err}
use piecesoflife.Store.WellFormed.{KeepsForm, KeepsForm-preorder, aside-KeepsForm, beside_rules}
use piecesoflife.Store.Rows.{Issue}
use piecesoflife.Store.Tables.{QuestionBank, DefaultQuestion, User}
use piecesoflife.Store.Questions.{insert_question}
use piecesoflife.Store.Questions.Bank.{use_bank_question}
use piecesoflife.Store.Questions.Curation.{
  Drawn, draw, draw_categories, draw_more, select_random_unused_questions_by, add_defaults,
  stitch_defaults, add_bank_questions, is_open_draft, expect_curated, fill_slots, assemble, curate,
  curate_found, prepare_draft_questions, insert_suggestion, create_suggested_question,
}
use piecesoflife.Store.WellFormed.Operations.{update_issues-Grants}

draw-Respects : (p : QuestionBank → Bool) (n : ℕ) → Respects KeepsForm (draw query_write p n)
unfolding draw
draw-Respects p n = search beside_rules depth 9

draw_categories-Respects :
    (g n : ℕ) (cs : List String) (d : Drawn)
    → Respects KeepsForm (draw_categories query_write g n cs d)
unfolding draw_categories
draw_categories-Respects g n [] d = search beside_rules
draw_categories-Respects g n (c ∷ cs) d =
    search (beside_rules, draw-Respects, λ (e : Drawn). draw_categories-Respects g n cs e) depth 9

draw_more-Respects :
    (p : QuestionBank → Bool) (n : ℕ) (d : Drawn) → Respects KeepsForm (draw_more query_write p n d)
unfolding draw_more
draw_more-Respects p n d = search (beside_rules, draw-Respects) depth 9

select_random-Respects :
    (g n : ℕ) → Respects KeepsForm (select_random_unused_questions_by query_write g n)
unfolding select_random_unused_questions_by
select_random-Respects g n =
    search (beside_rules, draw_categories-Respects, draw_more-Respects) depth 12

add_defaults-Respects :
    (k n : ℕ) (qs : List DefaultQuestion) → Respects KeepsForm (add_defaults k n qs)
unfolding add_defaults insert_question
add_defaults-Respects k n [] = search beside_rules
add_defaults-Respects k n (q ∷ qs) =
    Respects-bind KeepsForm-preorder _ _ (search beside_rules depth 12)
      (λ _. add_defaults-Respects k (suc n) qs)

stitch_defaults-Respects :
    (g k : ℕ) (b : Bool) (n : ℕ) → Respects KeepsForm (stitch_defaults g k b n)
unfolding stitch_defaults
stitch_defaults-Respects g k true n = search beside_rules
stitch_defaults-Respects g k false n = search (beside_rules, add_defaults-Respects) depth 9

add_bank_questions-Respects :
    (k n : ℕ) (qs : List QuestionBank) → Respects KeepsForm (add_bank_questions k n qs)
unfolding add_bank_questions insert_question use_bank_question
add_bank_questions-Respects k n [] = search beside_rules
add_bank_questions-Respects k n (q ∷ qs) =
    Respects-bind KeepsForm-preorder _ _ (search beside_rules depth 12) (λ _.
      Respects-bind KeepsForm-preorder _ _ (search beside_rules depth 12)
        (λ _. add_bank_questions-Respects k (suc n) qs))

assemble-Respects : (g k t n : ℕ) → Respects KeepsForm (assemble g k t n)
unfolding assemble fill_slots expect_curated
assemble-Respects g k t n =
    search
      (
        beside_rules, stitch_defaults-Respects, select_random-Respects, add_bank_questions-Respects,
        update_issues-Grants,
      )
      depth 16

curate_found-Respects :
    (g k t n : ℕ) (found : Option Issue) → Respects KeepsForm (curate_found g k t n found)
unfolding curate_found curate
curate_found-Respects g k t n none = search beside_rules
curate_found-Respects g k t n (some iss) = search (beside_rules, assemble-Respects) depth 12

pub prepare_draft_questions-Respects :
    (a b c : ℕ) → Respects KeepsForm (prepare_draft_questions a b c)
unfolding prepare_draft_questions
prepare_draft_questions-Respects a b c = search (beside_rules, curate_found-Respects) depth 12

suggestion-KeepsForm :
    (a b c : ℕ) (d : String) (e : Option String) (n : ℕ) (db : Db)
    → Grants KeepsForm db (insert_suggestion a b c d e n db)
unfolding insert_suggestion insert_question
suggestion-KeepsForm a b c d e n db =
    elim (Bool-cases (exists_where (is_open_draft a b n) db.issues)) [
      | inl early ↦
          elim (Bool-cases (
            exists_where (λ (iss : Issue). iss.id == b) db.issues
            && exists_where (λ (u : User). u.id == c) db.users)) [
              | inl known ↦ rw (early, known) (Grants-ok (aside-KeepsForm db _ refl refl refl refl))
              | inr unknown ↦ rw (early, unknown) Grants-err
            ]
      | inr late ↦ rw late (Grants-ok (λ h. h))
    ]

pub create_suggested_question-Respects :
    (a b c : ℕ) (d : String) (e : Option String)
    → Respects KeepsForm (create_suggested_question a b c d e)
unfolding create_suggested_question
create_suggested_question-Respects a b c d e = search (beside_rules, suggestion-KeepsForm) depth 12
