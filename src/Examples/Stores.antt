-- ===== src/Examples/Stores.antt =====
-- The theorems about the stores and the server's actions on the example tables.
use piecesoflife.Prelude.{
  ℕ, suc, ◌≡◌, ◌≢◌, refl, String, true, false, Option, none, some, List, [], ◌∷◌, map,
}
use piecesoflife.Store.Tables.{admin, member}
use piecesoflife.Store.Exec.{
  Err, Result, World, ok, err, pure, raise, query_write, exec, transaction, framed, transaction_if,
  get_now, get_pick, ◌>>=◌,
}
use piecesoflife.Store.Issues.{update_issues}
use piecesoflife.Store.Questions.{
  insert_question, issue_questions, update_questions, expect_some, set_orders, reorder,
  reorder_questions,
}
use piecesoflife.Store.Questions.Order.{reorder_lists}
use piecesoflife.Store.Questions.Bank.{use_bank_question}
use piecesoflife.Store.Questions.Curation.{
  draw, draw_categories, take_new, draw_more, select_random_unused_questions_by, add_defaults,
  stitch_defaults, add_bank_questions, fill_slots, expect_curated, assemble, curate, curate_found,
  prepare_draft_questions, create_suggested_question,
}
use piecesoflife.Store.Questions.Curation.Final.{prepared_is_final}
use piecesoflife.Store.Responses.{
  insert_block, insert_text_block, insert_text_blocks, rewrite_text, replace_text,
  autosave_response, DraftBlock,
}
use piecesoflife.Store.Responses.Versions.{one_save_per_version}
use piecesoflife.Store.Responses.Progress.{SubmissionProgress}
use piecesoflife.Store.Members.{upsert_membership, create_membership}
use piecesoflife.Store.Members.Roles.{IsRaised, invitation-IsRaised}
use piecesoflife.Examples.Data.{due, planning}

reordered : (reorder_questions 1 (2 ∷ 1 ∷ []) due).0 ≡ ok tt
unfolding reorder_questions reorder set_orders expect_some update_questions transaction framed
    query_write exec pure raise ◌>>=◌
reordered = refl

reorder_lists_example :
    map (λ q. q.id) (issue_questions 1 (reorder_questions 1 (2 ∷ 1 ∷ []) due).1.db) ≡ 2 ∷ 1 ∷ []
reorder_lists_example = reorder_lists 1 (2 ∷ 1 ∷ []) due (refl, (refl, tt)) reordered

abbrev prepared : Result (Unit {0}) × World
prepared = prepare_draft_questions 1 3 3 planning

prepared_done : prepared.0 ≡ ok tt
unfolding prepare_draft_questions curate_found curate assemble stitch_defaults add_defaults
    fill_slots select_random_unused_questions_by draw_categories draw draw_more take_new
    add_bank_questions insert_question use_bank_question expect_curated update_issues transaction_if
    get_pick get_now query_write exec pure raise ◌>>=◌
prepared_done = refl

prepared_is_final_example :
    ((user_id : ℕ) (text : String) (category : Option String) (n : ℕ)
      → (create_suggested_question 1 3 user_id text category prepared.1).0 ≢ ok n)
    × ((again : ℕ) → (prepare_draft_questions 1 3 again prepared.1).1.db ≡ prepared.1.db)
prepared_is_final_example =
    prepared_is_final 1 3 3 planning prepared.1 (refl, (refl, (refl, tt))) prepared_done refl

abbrev typed : List DraftBlock
typed = record { block_type = none; content = some "Spring came early." } ∷ []

abbrev first : ℕ
first = 1

abbrev second : ℕ
second = 2

abbrev saved_once : Result ℕ × World
saved_once = autosave_response 1 first typed due

saved_once_done : saved_once.0 ≡ ok second
unfolding autosave_response replace_text rewrite_text insert_text_blocks insert_text_block
    insert_block transaction framed get_now query_write exec pure raise ◌>>=◌
saved_once_done = refl

one_save_per_version_example :
    (second ≡ suc first)
    × (e : Err) × ((autosave_response 1 first [] saved_once.1).0 ≡ err e)
    × ((autosave_response 1 first [] saved_once.1).1.db ≡ saved_once.1.db)
one_save_per_version_example =
    one_save_per_version 1 first second typed [] due saved_once.1 saved_once_done refl

abbrev ratio : SubmissionProgress
ratio = record {
  total_members = 2;
  responded = 1;
  count_admin_in = true;
  members =
      record { user_id = 2; name = "Bo"; role = member; responded = false }
      ∷ record { user_id = 1; name = "Ana"; role = admin; responded = true }
      ∷ [];
}

invited : (create_membership 1 1 member due).0 ≡ ok tt
unfolding create_membership upsert_membership exec
invited = refl

invitation-IsRaised_example : IsRaised 1 1 member due.db (create_membership 1 1 member due).1.db
invitation-IsRaised_example = invitation-IsRaised 1 1 member due invited
