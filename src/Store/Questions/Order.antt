-- ===== src/Store/Questions/Order.antt =====
-- internal/store/question.go: rewriting the order of an issue's questions.
use piecesoflife.Prelude.{
  ℕ, suc, ◌≡◌, refl, sym, ap, subst, ◌∙◌, Bool, true, false, ◌&&◌, List, [], ◌∷◌, map, arith, ◌==◌,
  if◌then◌else◌, ==_refl, ==→eq, exists_where, update_where, count_where, select, order_by, length,
  Bool-cases, inl, inr,
}
use piecesoflife.Prelude.Distinct.{Distinct, Distinct-update}
use piecesoflife.Store.Tables.{Question}
use piecesoflife.Store.Exec.{
  ok, err, order_mismatch, World, Exec, tick, exec, query_write, pure, raise, ◌>>=◌, transaction,
}
use piecesoflife.Store.Exec.Inversion.{bind_ok, exec_ok, query_write_ok, transaction_ok}
use piecesoflife.Store.Questions.{
  of_issue, is_question_of, issue_questions, update_questions, place_question, expect_some,
  set_orders, check_unique_ids, count_questions, reorder, reorder_questions,
}
use piecesoflife.Store.Questions.Sorted.{same_question, has_place, Placed, sorted-ids}

module _ (issue_id : ℕ) where
  -- The rows after the loop.
  abbrev placed : ℕ → List ℕ → List Question → List Question
  placed i [] rows = rows
  placed i (id ∷ ids) rows =
      placed (suc i) ids
        (update_where (is_question_of issue_id id) (λ q. record q { sort_order = i }) rows)

  abbrev at_place : ℕ → ℕ → Question → Bool
  at_place id i q = has_place id i q && of_issue issue_id q

  update-place :
      (id k i j : ℕ) (rows : List Question)
      → (k == id) ≡ false
      → exists_where (at_place id i) rows ≡ true
      → exists_where
          (at_place id i)
          (update_where (is_question_of issue_id k) (λ q. record q { sort_order = j }) rows)
        ≡ true
  update-place id k i j [] h e = e
  update-place id k i j (x ∷ xs) h e = ground (arith, h, e, update-place id k i j xs h)

  placed-place :
      (id i j : ℕ) (ids : List ℕ) (rows : List Question)
      → exists_where (λ k. k == id) ids ≡ false
      → exists_where (at_place id i) rows ≡ true
      → exists_where (at_place id i) (placed j ids rows) ≡ true
  placed-place id i j [] rows h e = e
  placed-place id i j (k ∷ ks) rows h e =
      placed-place id i (suc j) ks _ (ground (arith, h))
        (update-place id k i j rows (ground (arith, h)) e)

  update-hit :
      (id i : ℕ) (rows : List Question)
      → (count_where (is_question_of issue_id id) rows == 0) ≡ false
      → exists_where
          (at_place id i)
          (update_where (is_question_of issue_id id) (λ q. record q { sort_order = i }) rows)
        ≡ true
  update-hit id i [] h = cc
  update-hit id i (x ∷ xs) h = ground (arith, h, update-hit id i xs, ==_refl i)

  placed-Distinct :
      (i : ℕ) (ids : List ℕ) (rows : List Question)
      → Distinct same_question rows
      → Distinct same_question (placed i ids rows)
  placed-Distinct i [] rows d = d
  placed-Distinct i (id ∷ ids) rows d = placed-Distinct (suc i) ids _ (
      Distinct-update same_question (is_question_of issue_id id) (λ q. record q { sort_order = i })
        rows (λ x y. refl) (λ x y. refl) d)

  update-length :
      (id i : ℕ) (rows : List Question)
      → count_where
          (of_issue issue_id)
          (update_where (is_question_of issue_id id) (λ q. record q { sort_order = i }) rows)
        ≡ count_where (of_issue issue_id) rows
  update-length id i [] = refl
  update-length id i (x ∷ xs) = ground (arith, update-length id i xs)

  placed-length :
      (i : ℕ) (ids : List ℕ) (rows : List Question)
      → count_where (of_issue issue_id) (placed i ids rows) ≡ count_where (of_issue issue_id) rows
  placed-length i [] rows = refl
  placed-length i (id ∷ ids) rows = placed-length (suc i) ids _ ∙ update-length id i rows

  select-length :
      (rows : List Question)
      → length (select (of_issue issue_id) rows) ≡ count_where (of_issue issue_id) rows
  select-length [] = refl
  select-length (x ∷ xs) = ground (arith, select-length xs)

  exists-select :
      (p : Question → Bool) (rows : List Question)
      → exists_where p rows ≡ false
      → exists_where p (select (of_issue issue_id) rows) ≡ false
  exists-select p [] h = refl
  exists-select p (x ∷ xs) h = ground (arith, h, exists-select p xs)

  select-Distinct :
      (rows : List Question)
      → Distinct same_question rows
      → Distinct same_question (select (of_issue issue_id) rows)
  select-Distinct [] d = d
  select-Distinct (x ∷ xs) d =
      ground (arith, select-Distinct xs d.1, exists-select (same_question x) xs d.0)

  select-place :
      (id i : ℕ) (rows : List Question)
      → exists_where (at_place id i) rows ≡ true
      → exists_where (has_place id i) (select (of_issue issue_id) rows) ≡ true
  select-place id i [] h = cc
  select-place id i (x ∷ xs) h = ground (arith, h, select-place id i xs)

  expect_some_ok :
      (n : ℕ) (w : World)
      → (expect_some n w).0 ≡ ok tt
      → ((n == 0) ≡ false) × (expect_some n w ≡ (ok tt, w))
  unfolding expect_some pure raise
  expect_some_ok n w h = ground arith

  abbrev positions : ℕ → List ℕ → Exec (Unit {0})
  positions i ids = set_orders (place_question issue_id) i ids

  place_ok :
      (id i n : ℕ) (w : World)
      → (exec (place_question issue_id id i) w).0 ≡ ok n
      → ((exec (place_question issue_id id i) w).1.db.content.questions
          ≡ update_where
              (is_question_of issue_id id)
              (λ q. record q { sort_order = i })
              w.db.content.questions)
        × (n ≡ count_where (is_question_of issue_id id) w.db.content.questions)
  unfolding update_questions
  place_ok id i n w h =
      let (d, did, after) = exec_ok (place_question issue_id id i) w h in
      (ap (λ e. e.content.questions) after ∙ cc, cc)

  -- The first step of a loop without an error.
  step_ok :
      (i id : ℕ) (ids : List ℕ) (w : World)
      → (positions i (id ∷ ids) w).0 ≡ ok tt
      → (positions i (id ∷ ids) w ≡ positions (suc i) ids (exec (place_question issue_id id i) w).1)
        × ((exec (place_question issue_id id i) w).1.db.content.questions
            ≡ update_where
                (is_question_of issue_id id)
                (λ q. record q { sort_order = i })
                w.db.content.questions)
        × ((count_where (is_question_of issue_id id) w.db.content.questions == 0) ≡ false)
  unfolding set_orders
  step_ok i id ids w h =
      let (n, wrote, next) = bind_ok (exec (place_question issue_id id i)) _ w h in
      let w' : World = (exec (place_question issue_id id i) w).1 in
      let (u, hit, rest) =
        bind_ok (expect_some n) (λ _. positions (suc i) ids) w' (sym (ap (λ r. r.0) next) ∙ h) in
      let (some_rows, stays) = expect_some_ok n w' hit in
      let (rows, count) = place_ok id i n w wrote in
      (
        next ∙ rest ∙ ap (λ r. positions (suc i) ids r.1) stays,
        rows,
        subst (λ m. (m == 0) ≡ false) count some_rows,
      )

  -- What a loop without an error has done.
  positions_ok :
      (i : ℕ) (ids : List ℕ) (w : World)
      → check_unique_ids ids ≡ true
      → (positions i ids w).0 ≡ ok tt
      → ((positions i ids w).1.db.content.questions ≡ placed i ids w.db.content.questions)
        × Placed i ids (select (of_issue issue_id) (placed i ids w.db.content.questions))
  unfolding set_orders pure
  positions_ok i [] w u h = (refl, tt)
  positions_ok i (id ∷ ids) w u h =
      let (run, rows, hit) = step_ok i id ids w h in
      let w' : World = (exec (place_question issue_id id i) w).1 in
      let (final, places) =
        positions_ok (suc i) ids w' (ground (arith, u)) (sym (ap (λ r. r.0) run) ∙ h) in
      let later = ap (placed (suc i) ids) rows in
      (
        ap (λ r. r.1.db.content.questions) run ∙ final ∙ later,
        (
          select-place id i (placed i (id ∷ ids) w.db.content.questions) (
              placed-place id i (suc i) ids _ (ground (arith, u))
                (update-hit id i w.db.content.questions hit)),
          subst (λ l. Placed (suc i) ids (select (of_issue issue_id) l)) later places,
        ),
      )

  abbrev guarded : List ℕ → ℕ → Exec (Unit {0})
  guarded ids n =
      if n == length ids && check_unique_ids ids then positions 0 ids else raise order_mismatch

  guarded_ok :
      (ids : List ℕ) (n : ℕ) (w : World)
      → (guarded ids n w).0 ≡ ok tt
      → (n ≡ length ids) × (check_unique_ids ids ≡ true) × (guarded ids n w ≡ positions 0 ids w)
  unfolding raise
  guarded_ok ids n w h = elim (Bool-cases (n == length ids && check_unique_ids ids)) [
    | inl good ↦ (==→eq n (length ids) (ground (arith, good)), ground (arith, good), rw good refl)
    | inr bad ↦ absurd (
        let failed : err order_mismatch ≡ ok tt =
          subst (λ b. ((if b then positions 0 ids else raise order_mismatch) w).0 ≡ ok tt) bad h in
        cc)
  ]

-- A reordering of an issue's questions that returns no error leaves the issue with its questions
-- listed in exactly the submitted order. Ids of questions are unique.
pub reorder_lists :
    (issue_id : ℕ) (ids : List ℕ) (w : World)
    → Distinct same_question w.db.content.questions
    → (reorder_questions issue_id ids w).0 ≡ ok tt
    → map (λ q. q.id) (issue_questions issue_id (reorder_questions issue_id ids w).1.db) ≡ ids
unfolding reorder_questions reorder query_write
reorder_lists issue_id ids w d h =
    let count : Exec ℕ = query_write (λ db. ok (count_questions issue_id db)) in
    let (body, db) = transaction_ok (count >>= guarded issue_id ids) w h in
    let (n, counted, next) = bind_ok count (guarded issue_id ids) (tick w) body in
    let w' : World = (count (tick w)).1 in
    let (fits, unique, run) = guarded_ok issue_id ids n w' (sym (ap (λ r. r.0) next) ∙ body) in
    let (final, places) =
      positions_ok issue_id 0 ids w' unique (sym (ap (λ r. r.0) (next ∙ run)) ∙ body) in
    let rows : List Question = placed issue_id 0 ids w.db.content.questions in
    let whole : (transaction (count >>= guarded issue_id ids) w).1.db.content.questions ≡ rows =
      ap (λ e. e.content.questions) db ∙ ap (λ r. r.1.db.content.questions) (next ∙ run) ∙ final in
    let counts : count_where (of_issue issue_id) w.db.content.questions ≡ n =
      cc (query_write_ok (λ db. ok (count_questions issue_id db)) (tick w) n counted) in
    let size : length (select (of_issue issue_id) rows) ≡ length ids =
      select-length issue_id rows
      ∙ placed-length issue_id 0 ids w.db.content.questions
      ∙ counts
      ∙ fits in
    let listed =
      sorted-ids 0 ids (select (of_issue issue_id) rows)
        (select-Distinct issue_id rows (placed-Distinct issue_id 0 ids w.db.content.questions d))
        unique size places in
    ap (λ l. map (λ q. q.id) (order_by (λ q. q.sort_order) (select (of_issue issue_id) l))) whole
    ∙ listed.0
