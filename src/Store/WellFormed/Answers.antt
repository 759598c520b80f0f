-- ===== src/Store/WellFormed/Answers.antt =====
-- The operations on the answers and their blocks leave the tables of the rounds well-formed.
use piecesoflife.Prelude.{ℕ, suc, String, Bool, Option, List, [], ◌∷◌}
use piecesoflife.Store.Exec.Respects.{Respects, Respects-bind}
use piecesoflife.Store.WellFormed.{KeepsForm, KeepsForm-preorder, beside_rules}
use piecesoflife.Store.Tables.{BlockType, Response}
use piecesoflife.Store.Responses.{
  create_response, insert_response, delete_response, remove_response, submit_response, create_block,
  insert_block, autosave_response, DraftBlock, insert_text_block, insert_text_blocks, rewrite_text,
  replace_text, checked_save, insert_block, update_blocks,
}
use piecesoflife.Store.Responses.Progress.{
  set_issue_count_admin_in, update_block, update_block_cover, delete_block, reorder_blocks,
  place_blocks,
}
use piecesoflife.Store.WellFormed.Operations.{update_issues-Grants}

pub create_response-Respects : (a : ℕ) (b : ℕ) → Respects KeepsForm (create_response a b)
unfolding create_response insert_response
create_response-Respects a b = search beside_rules depth 12

pub delete_response-Respects : (a : ℕ) → Respects KeepsForm (delete_response a)
unfolding delete_response remove_response
delete_response-Respects a = search beside_rules depth 12

pub submit_response-Respects : (a : ℕ) → Respects KeepsForm (submit_response a)
unfolding submit_response
submit_response-Respects a = search beside_rules depth 12

pub create_block-Respects :
    (a : ℕ) (b : BlockType) (c : Option String) (d : Option String) (e : Option String)
    (f : Option String) (g : ℕ)
    → Respects KeepsForm (create_block a b c d e f g)
unfolding create_block insert_block
create_block-Respects a b c d e f g = search beside_rules depth 12

pub update_block-Respects :
    (a : ℕ) (b : Option String) (c : Option String) → Respects KeepsForm (update_block a b c)
unfolding update_block update_blocks
update_block-Respects a b c = search beside_rules depth 12

pub update_block_cover-Respects :
    (a : ℕ) (b : Bool) (c : Option String) → Respects KeepsForm (update_block_cover a b c)
unfolding update_block_cover update_blocks
update_block_cover-Respects a b c = search beside_rules depth 12

pub delete_block-Respects : (a : ℕ) → Respects KeepsForm (delete_block a)
unfolding delete_block
delete_block-Respects a = search beside_rules depth 12

insert_text_block-Respects :
    (id now i : ℕ) (b : DraftBlock) → Respects KeepsForm (insert_text_block id now i b)
unfolding insert_text_block insert_block
insert_text_block-Respects id now i b = search beside_rules depth 12

insert_text_blocks-Respects :
    (id now i : ℕ) (bs : List DraftBlock) → Respects KeepsForm (insert_text_blocks id now i bs)
unfolding insert_text_blocks
insert_text_blocks-Respects id now i [] = search beside_rules
insert_text_blocks-Respects id now i (b ∷ bs) =
    Respects-bind KeepsForm-preorder _ _ (insert_text_block-Respects id now i b)
      (λ _. insert_text_blocks-Respects id now (suc i) bs)

checked_save-Respects :
    (id expected now : ℕ) (bs : List DraftBlock) (r : Response)
    → Respects KeepsForm (checked_save id expected now bs r)
unfolding replace_text rewrite_text
checked_save-Respects id expected now bs r =
    search (beside_rules, insert_text_blocks-Respects) depth 14

pub autosave_response-Respects :
    (a b : ℕ) (c : List DraftBlock) → Respects KeepsForm (autosave_response a b c)
unfolding autosave_response
autosave_response-Respects a b c = search (beside_rules, checked_save-Respects) depth 12

place_blocks-Respects : (id i : ℕ) (ids : List ℕ) → Respects KeepsForm (place_blocks id i ids)
unfolding place_blocks update_blocks
place_blocks-Respects id i [] = search beside_rules
place_blocks-Respects id i (j ∷ ids) =
    Respects-bind KeepsForm-preorder _ _ (search beside_rules depth 12)
      (λ _. place_blocks-Respects id (suc i) ids)

pub reorder_blocks-Respects : (a : ℕ) (b : List ℕ) → Respects KeepsForm (reorder_blocks a b)
unfolding reorder_blocks
reorder_blocks-Respects a b = search (beside_rules, place_blocks-Respects)

pub set_issue_count_admin_in-Respects :
    (a : ℕ) (b : Bool) → Respects KeepsForm (set_issue_count_admin_in a b)
unfolding set_issue_count_admin_in
set_issue_count_admin_in-Respects a b = search (beside_rules, update_issues-Grants) depth 9
