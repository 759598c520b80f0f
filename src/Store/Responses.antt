-- ===== src/Store/Responses.antt =====
-- internal/store/response.go: the answers to questions, their blocks, and saving a draft under a
-- version number.
pub mod Progress
pub mod Versions
pub mod Tally
use piecesoflife.Prelude.{
  ℕ, suc, ◌+◌, ◌-◌, String, Bool, true, false, not, ◌&&◌, Option, none, some, List, [], ◌∷◌, ◌++◌,
  ◌==◌, if◌then◌else◌, ltb, is_none, select, delete_where, update_where, exists_where, count_where,
  first_where, order_by, max_where, holds_id,
}
use piecesoflife.Store.Rows.{Db}
use piecesoflife.Store.Tables.{
  User, Comment, Question, Response, ResponseBlock, BlockType, text, is_block_type,
}
use piecesoflife.Store.Exec.{
  Result, ok, err, Exec, unique_violation, foreign_key_violation, version_conflict, pure, raise,
  query, query_write, exec, get_now, transaction, ◌>>=◌, ◌>>◌,
}
use piecesoflife.Store.Sql.{first_row}
use piecesoflife.Store.Questions.{is_question}

abbrev pub with_responses : List Response → Db → Db
with_responses rows db = record db { content = record db.content { responses = rows } }

abbrev pub with_blocks : List ResponseBlock → Db → Db
with_blocks rows db = record db { content = record db.content { blocks = rows } }

-- UNIQUE(user_id, question_id)
abbrev pub answers : ℕ → ℕ → Response → Bool
answers user_id question_id r = r.user_id == user_id && r.question_id == question_id

abbrev pub new_response : Db → ℕ → ℕ → Response
new_response db user_id question_id = record {
  id = suc db.content.response_seq;
  user_id = user_id;
  question_id = question_id;
  is_draft = true;
  version = 1;
}

abbrev pub add_response : Response → Db → Db
add_response r db = record db {
  content = record db.content {
    responses = db.content.responses ++ r ∷ [];
    response_seq = suc db.content.response_seq;
  };
}

unfoldable pub insert_response : ℕ → ℕ → Db → Result (ℕ × Db)
insert_response user_id question_id db =
    if exists_where (answers user_id question_id) db.content.responses
    then err unique_violation
    else if exists_where (λ (u : User). u.id == user_id) db.users
        && exists_where (is_question question_id) db.content.questions
    then ok (suc db.content.response_seq, add_response (new_response db user_id question_id) db)
    else err foreign_key_violation

unfoldable pub create_response : ℕ → ℕ → Exec ℕ
create_response user_id question_id = exec (insert_response user_id question_id)

abbrev pub is_response : ℕ → Response → Bool
is_response id r = r.id == id

unfoldable pub get_response_by_id : ℕ → Exec Response
get_response_by_id id = query (λ db. first_row (first_where (is_response id) db.content.responses))

unfoldable pub get_user_response : ℕ → ℕ → Exec Response
get_user_response user_id question_id =
    query (λ db. first_row (first_where (answers user_id question_id) db.content.responses))

abbrev pub of_response : ℕ → ResponseBlock → Bool
of_response response_id b = b.response_id == response_id

-- The blocks go with the response, ON DELETE CASCADE; a comment on it refuses the statement.
unfoldable pub remove_response : ℕ → Db → Result (Unit {0} × Db)
remove_response id db =
    if exists_where (is_response id) db.content.responses
      && exists_where (λ (c : Comment). holds_id c.response_id id) db.content.comments
    then err foreign_key_violation
    else ok (
      tt,
      with_blocks (delete_where (of_response id) db.content.blocks)
          (with_responses (delete_where (is_response id) db.content.responses) db),
    )

unfoldable pub delete_response : ℕ → Exec (Unit {0})
delete_response id = exec (remove_response id)

unfoldable pub submit_response : ℕ → Exec (Unit {0})
submit_response id = exec (λ db. ok (
  tt,
  with_responses
      (update_where (is_response id) (λ r. record r { is_draft = false }) db.content.responses) db,
))

abbrev pub new_block :
    Db
    → ℕ
    → BlockType
    → Option String
    → Option String
    → Option String
    → Option String
    → ℕ
    → ℕ
    → ResponseBlock
new_block db response_id block_type content file_path caption link_url sort_order now = record {
  id = suc db.content.block_seq;
  response_id = response_id;
  block_type = block_type;
  content = content;
  file_path = file_path;
  caption = caption;
  is_covered = false;
  cover_note = none;
  link_url = link_url;
  sort_order = sort_order;
  created_at = now;
}

abbrev pub add_block : ResponseBlock → Db → Db
add_block b db = record db {
  content = record db.content {
    blocks = db.content.blocks ++ b ∷ [];
    block_seq = suc db.content.block_seq;
  };
}

-- INSERT INTO response_blocks
unfoldable pub insert_block :
    ℕ
    → BlockType
    → Option String
    → Option String
    → Option String
    → Option String
    → ℕ
    → ℕ
    → Db
    → Result (ℕ × Db)
insert_block response_id block_type content file_path caption link_url sort_order now db =
    if exists_where (is_response response_id) db.content.responses
    then ok (
      suc db.content.block_seq,
      add_block
          (new_block db response_id block_type content file_path caption link_url sort_order now)
          db,
    )
    else err foreign_key_violation

unfoldable pub create_block :
    ℕ → BlockType → Option String → Option String → Option String → Option String → ℕ → Exec ℕ
create_block response_id block_type content file_path caption link_url sort_order = do
  now ← get_now
  exec (insert_block response_id block_type content file_path caption link_url sort_order now)

abbrev pub is_text : ResponseBlock → Bool
is_text b = is_block_type b.block_type text

-- The part of a block that an autosave sends: its type, or none for the empty text, and the content.
pub record DraftBlock : Type 0 where
  pub block_type : Option BlockType
  pub content : Option String

abbrev pub is_other_type : Option BlockType → Bool
is_other_type none = false
is_other_type (some t) = not (is_block_type t text)

-- Blocks of another type are passed over.
unfoldable pub insert_text_block : ℕ → ℕ → ℕ → DraftBlock → Exec (Unit {0})
insert_text_block response_id now i b =
    if is_other_type b.block_type
    then pure tt
    else (do n ← exec (insert_block response_id text b.content none none none i now); pure tt)

-- The loop over the sent blocks; `i` counts those that are passed over, too.
unfoldable pub insert_text_blocks : ℕ → ℕ → ℕ → List DraftBlock → Exec (Unit {0})
insert_text_blocks response_id now i [] = pure tt
insert_text_blocks response_id now i (b ∷ bs) = do
  insert_text_block response_id now i b
  insert_text_blocks response_id now (suc i) bs

-- MAX(sort_order), or -1 without a row, and then + 1
abbrev pub next_sort : Option ℕ → ℕ
next_sort none = 0
next_sort (some m) = suc m

abbrev pub delete_text_blocks : ℕ → Db → Result (Unit {0} × Db)
delete_text_blocks id db =
    ok (tt, with_blocks (delete_where (λ b. of_response id b && is_text b) db.content.blocks) db)

abbrev pub max_sort : ℕ → Db → Result (Option ℕ)
max_sort id db = ok (max_where (of_response id) (λ b. b.sort_order) db.content.blocks)

abbrev pub increment_version : ℕ → Db → Result (Unit {0} × Db)
increment_version id db = ok (
  tt,
  with_responses
      (update_where (is_response id) (λ r. record r { version = suc r.version })
        db.content.responses)
      db,
)

-- The text blocks are deleted and written anew, after the blocks that stay.
unfoldable pub rewrite_text : ℕ → ℕ → List DraftBlock → Exec (Unit {0})
rewrite_text id now blocks = do
  exec (delete_text_blocks id)
  last ← query_write (max_sort id)
  insert_text_blocks id now (next_sort last) blocks

-- What an autosave does once the version is the expected one.
unfoldable pub replace_text : ℕ → ℕ → List DraftBlock → Exec (Unit {0})
replace_text id now blocks = do rewrite_text id now blocks; exec (increment_version id)

abbrev pub checked_save : ℕ → ℕ → ℕ → List DraftBlock → Response → Exec ℕ
checked_save id expected_version now blocks r =
    if r.version == expected_version
    then (do replace_text id now blocks; pure (suc r.version))
    else raise (version_conflict r.version)

unfoldable pub autosave_response : ℕ → ℕ → List DraftBlock → Exec ℕ
autosave_response id expected_version blocks = do
  now ← get_now
  transaction (do
    r ← query_write (λ db. first_row (first_where (is_response id) db.content.responses))
    checked_save id expected_version now blocks r)

abbrev pub is_block : ℕ → ResponseBlock → Bool
is_block id b = b.id == id

unfoldable pub update_blocks :
    (ResponseBlock → Bool) → (ResponseBlock → ResponseBlock) → Exec (Unit {0})
update_blocks p f = exec (λ db. ok (tt, with_blocks (update_where p f db.content.blocks) db))
