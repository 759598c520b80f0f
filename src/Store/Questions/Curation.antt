-- ===== src/Store/Questions/Curation.antt =====
-- internal/store/question_curation.go: how a draft's suggestions become the questions of its round.
mod SameIssues
mod Closed
pub mod Final
use text.Mathlib.Text.{◌==◌ as same_text}
use piecesoflife.Prelude.{
  ℕ, suc, ◌+◌, ◌-◌, String, Bool, true, false, not, ◌&&◌, Option, none, some, List, [], ◌∷◌, ◌++◌,
  ◌==◌, if◌then◌else◌, ltb, leb, is_none, select, exists_where, count_where, first_where, max_where,
  limit, length, shuffle,
}
use piecesoflife.Store.Rows.{Db, Issue, is_draft}
use piecesoflife.Store.Tables.{
  Question, QuestionBank, DefaultQuestion, bank, friend, default, is_default,
}
use piecesoflife.Store.Exec.{
  Result, ok, err, Exec, not_curatable, not_accepting_suggestions, invalid_target, pure, raise,
  query, query_write, exec, get_now, get_pick, transaction_if, ◌>>=◌, ◌>>◌,
}
use piecesoflife.Store.Issues.{is_issue, in_group, update_issues}
use piecesoflife.Store.Questions.{insert_question, of_issue, count_questions}
use piecesoflife.Store.Questions.Bank.{use_bank_question}
use piecesoflife.Store.Questions.Defaults.{group_defaults, after_last}

abbrev pub question_bank_categories : List String
question_bank_categories =
    "life_updates" ∷ "deep_thoughts" ∷ "fun_silly" ∷ "memories" ∷ "goals" ∷ "recommendations"
    ∷ "hypotheticals" ∷ []

-- A query on the bank: `questionBankQuerier` is the read pool, or a transaction.
abbrev pub Querier : Type 0
Querier = (Db → Result (List QuestionBank)) → Exec (List QuestionBank)

abbrev pub is_unused : ℕ → QuestionBank → Bool
is_unused group_id q = q.group_id == group_id && not q.used

abbrev pub is_unused_in : ℕ → String → QuestionBank → Bool
is_unused_in group_id category q = is_unused group_id q && same_text q.category category

-- The rows that the test selects, ORDER BY RANDOM() LIMIT n
unfoldable pub draw : Querier → (QuestionBank → Bool) → ℕ → Exec (List QuestionBank)
draw run p n = do
  pick ← get_pick
  run (λ db. ok (limit n (shuffle pick (select p db.content.question_bank))))

-- The key set of `usedIDs`.
abbrev pub has_seen : List ℕ → ℕ → Bool
has_seen ids id = exists_where (λ i. i == id) ids

abbrev pub put_seen : List ℕ → ℕ → List ℕ
put_seen ids id = if has_seen ids id then ids else id ∷ ids

-- `results` and `usedIDs`
pub record Drawn : Type 0 where
  pub results : List QuestionBank
  pub used_ids : List ℕ

abbrev pub take_question : Drawn → QuestionBank → Drawn
take_question d q = record { results = d.results ++ q ∷ []; used_ids = put_seen d.used_ids q.id }

-- A row that LIMIT 1 found, if any.
abbrev pub take_first : Drawn → List QuestionBank → Drawn
take_first d [] = d
take_first d (q ∷ qs) = take_question d q

-- One question of each category, until there are enough.
unfoldable pub draw_categories : Querier → ℕ → ℕ → List String → Drawn → Exec Drawn
draw_categories run group_id count [] d = pure d
draw_categories run group_id count (c ∷ cs) d = if leb count (length d.results) then pure d else do
  rows ← draw run (is_unused_in group_id c) 1
  draw_categories run group_id count cs (take_first d rows)

-- The loop over further rows: those not seen yet, until there are enough.
unfoldable pub take_new : ℕ → List QuestionBank → Drawn → Drawn
take_new count [] d = d
take_new count (q ∷ qs) d =
    if ltb (length d.results) count
    then take_new count qs (if has_seen d.used_ids q.id then d else take_question d q)
    else d

unfoldable pub draw_more : Querier → (QuestionBank → Bool) → ℕ → Drawn → Exec Drawn
draw_more run p count d =
    if ltb (length d.results) count
    then (do
      rows ← draw run p (count - length d.results + length d.used_ids)
      pure (take_new count rows d))
    else pure d

unfoldable pub select_random_unused_questions_by : Querier → ℕ → ℕ → Exec (List QuestionBank)
select_random_unused_questions_by run group_id count = if count == 0 then pure [] else do
  first ←
      draw_categories run group_id count question_bank_categories
        record { results = []; used_ids = [] }
  unused ← draw_more run (is_unused group_id) count first
  any ← draw_more run (λ q. q.group_id == group_id) count unused
  pure any.results

unfoldable pub select_random_unused_questions : ℕ → ℕ → Exec (List QuestionBank)
select_random_unused_questions group_id count =
    select_random_unused_questions_by query group_id count

-- The loop over the enabled defaults, and the next position after it.
unfoldable pub add_defaults : ℕ → ℕ → List DefaultQuestion → Exec ℕ
add_defaults issue_id next_order [] = pure next_order
add_defaults issue_id next_order (q ∷ qs) = do
  exec (insert_question issue_id q.text none default none next_order)
  add_defaults issue_id (suc next_order) qs

unfoldable pub stitch_defaults : ℕ → ℕ → Bool → ℕ → Exec ℕ
stitch_defaults group_id issue_id true next_order = pure next_order
stitch_defaults group_id issue_id false next_order = do
  defaults ← query_write (λ db. ok (select (λ q. q.enabled) (group_defaults group_id db)))
  add_defaults issue_id next_order defaults

-- The loop over the drawn questions: each is copied to the issue and marked as used.
unfoldable pub add_bank_questions : ℕ → ℕ → List QuestionBank → Exec (Unit {0})
add_bank_questions issue_id next_order [] = pure tt
add_bank_questions issue_id next_order (q ∷ qs) = do
  exec (insert_question issue_id q.text (some q.category) bank none next_order)
  exec (use_bank_question q.id)
  add_bank_questions issue_id (suc next_order) qs

abbrev pub issue_in : ℕ → ℕ → Issue → Bool
issue_in group_id issue_id iss = is_issue issue_id iss && in_group group_id iss

-- id = ? AND group_id = ? AND status = 'draft' AND opens_at > ? AND questions_curated_at IS NULL
abbrev pub is_open_draft : ℕ → ℕ → ℕ → Issue → Bool
is_open_draft group_id issue_id now iss =
    issue_in group_id issue_id iss
    && is_draft iss.status
    && ltb now iss.opens_at
    && is_none iss.questions_curated_at

abbrev pub mark_curated : ℕ → Issue → Issue
mark_curated now iss = record iss { questions_curated_at = some now }

unfoldable pub expect_curated : ℕ → Exec (Unit {0})
expect_curated n = if n == 1 then pure tt else raise not_curatable

abbrev pub has_defaults : ℕ → Db → Bool
has_defaults issue_id db =
    exists_where (λ q. of_issue issue_id q && is_default q.source) db.content.questions

abbrev pub question_counts : ℕ → Db → Result (ℕ × Bool)
question_counts issue_id db = ok (count_questions issue_id db, has_defaults issue_id db)

unfoldable pub fill_slots : ℕ → ℕ → ℕ → ℕ → Exec (Unit {0})
fill_slots group_id issue_id target next_order =
    if ltb next_order target
    then (do
      questions ← select_random_unused_questions_by query_write group_id (target - next_order)
      add_bank_questions issue_id next_order questions)
    else pure tt

-- The defaults, the questions of the bank, and the mark on the issue.
unfoldable pub assemble : ℕ → ℕ → ℕ → ℕ → Exec (Unit {0})
assemble group_id issue_id target now = do
  counts ← query_write (question_counts issue_id)
  next_order ← stitch_defaults group_id issue_id counts.1 counts.0
  fill_slots group_id issue_id target next_order
  n ← exec (update_issues (is_open_draft group_id issue_id now) (mark_curated now))
  expect_curated n

-- What is left to do on an issue that is not curated yet.
unfoldable pub curate : ℕ → ℕ → ℕ → ℕ → Issue → Exec (Unit {0})
curate group_id issue_id target now iss =
    if not (is_draft iss.status && ltb now iss.opens_at)
    then raise not_curatable
    else assemble group_id issue_id target now

-- Whether to commit: an issue that is curated already is left as it is.
unfoldable pub curate_found : ℕ → ℕ → ℕ → ℕ → Option Issue → Exec Bool
curate_found group_id issue_id target now none = raise not_curatable
curate_found group_id issue_id target now (some iss) =
    if is_none iss.questions_curated_at
    then (do curate group_id issue_id target now iss; pure true)
    else pure false

unfoldable pub prepare_draft_questions : ℕ → ℕ → ℕ → Exec (Unit {0})
prepare_draft_questions group_id issue_id target = if target == 0 then raise invalid_target else do
  now ← get_now
  transaction_if (do
    found ← query_write (λ db. ok (first_where (issue_in group_id issue_id) db.issues))
    curate_found group_id issue_id target now found)

-- INSERT INTO questions … SELECT … FROM issues WHERE …: the number of rows inserted, and the last id
unfoldable pub insert_suggestion :
    ℕ → ℕ → ℕ → String → Option String → ℕ → Db → Result ((ℕ × ℕ) × Db)
insert_suggestion group_id issue_id user_id text category now db =
    if exists_where (is_open_draft group_id issue_id now) db.issues
    then inserted (
        insert_question issue_id text category friend (some user_id)
          (after_last (max_where (of_issue issue_id) (λ q. q.sort_order) db.content.questions)) db)
    else ok ((0, db.content.question_seq), db)
  where
    inserted : Result (ℕ × Db) → Result ((ℕ × ℕ) × Db)
    inserted (ok (id, d)) = ok ((1, id), d)
    inserted (err e) = err e

unfoldable pub create_suggested_question : ℕ → ℕ → ℕ → String → Option String → Exec ℕ
create_suggested_question group_id issue_id user_id text category = do
  now ← get_now
  r ← exec (insert_suggestion group_id issue_id user_id text category now)
  if r.0 == 1 then pure r.1 else raise not_accepting_suggestions
