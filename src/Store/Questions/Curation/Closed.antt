-- ===== src/Store/Questions/Curation/Closed.antt =====
-- internal/store/question_curation.go: which issues count as curated.
use piecesoflife.Prelude.{
  ℕ, ◌≡◌, refl, sym, ap, subst, ◌∙◌, Bool, true, false, not, ◌&&◌, some, List, [], ◌∷◌, arith, ◌==◌,
  ltb, is_none, first_where, exists_where, count_where, update_where, Option-cases, Bool-cases, inl,
  inr,
}
use piecesoflife.Prelude.Distinct.{Distinct}
use piecesoflife.Store.Rows.{Db, Issue, is_draft}
use piecesoflife.Store.Exec.{
  Result, ok, World, Exec, exec, tick, next_fault, query_write, get_now, pure, raise,
  transaction_if, not_curatable, invalid_target, ◌>>=◌, ◌>>◌,
}
use piecesoflife.Store.Exec.Inversion.{bind_ok, exec_ok, transaction_if_ok, guard_ok}
use piecesoflife.Store.WellFormed.{same_issue_id}
use piecesoflife.Store.Issues.{update_issues}
use piecesoflife.Store.Questions.Curation.{
  stitch_defaults, fill_slots, issue_in, is_open_draft, mark_curated, expect_curated,
  question_counts, assemble, curate, curate_found, prepare_draft_questions,
}
use piecesoflife.Store.Questions.Curation.SameIssues.{stitch_defaults-Respects, fill_slots-Respects}

module _ (group_id issue_id : ℕ) where
  abbrev pub is_uncurated : Issue → Bool
  is_uncurated iss = issue_in group_id issue_id iss && is_none iss.questions_curated_at

  -- Every row of the issue in the group is curated.
  abbrev pub IsClosed : Db → Type 0
  IsClosed db = exists_where is_uncurated db.issues ≡ false

  absent :
      (x : Issue) (rows : List Issue)
      → issue_in group_id issue_id x ≡ true
      → exists_where (same_issue_id x) rows ≡ false
      → exists_where is_uncurated rows ≡ false
  absent x [] h free = refl
  absent x (y ∷ ys) h free = ground (arith, h, free, absent x ys h)

  -- The issue that was found is the only one.
  found-Closed :
      (rows : List Issue) (iss : Issue)
      → Distinct same_issue_id rows
      → first_where (issue_in group_id issue_id) rows ≡ some iss
      → is_none iss.questions_curated_at ≡ false
      → exists_where is_uncurated rows ≡ false
  found-Closed [] iss d f c = refl
  found-Closed (x ∷ xs) iss d f c = elim (Bool-cases (issue_in group_id issue_id x)) [
    | inl is ↦ ground (arith, f, c, is, absent x xs is d.0)
    | inr is_not ↦ ground (arith, f, c, is_not, found-Closed xs iss d.1)
  ]

  marked_absent :
      (now : ℕ) (x : Issue) (rows : List Issue)
      → issue_in group_id issue_id x ≡ true
      → exists_where (same_issue_id x) rows ≡ false
      → exists_where is_uncurated
          (update_where (is_open_draft group_id issue_id now) (mark_curated now) rows)
        ≡ false
  marked_absent now x [] h free = refl
  marked_absent now x (y ∷ ys) h free = ground (arith, h, free, marked_absent now x ys h)

  none_open :
      (now : ℕ) (x : Issue) (rows : List Issue)
      → issue_in group_id issue_id x ≡ true
      → exists_where (same_issue_id x) rows ≡ false
      → count_where (is_open_draft group_id issue_id now) rows ≡ 0
  none_open now x [] h free = refl
  none_open now x (y ∷ ys) h free = ground (arith, h, free, none_open now x ys h)

  -- The one row that the update hit is the only one of the issue.
  marked-Closed :
      (now : ℕ) (rows : List Issue)
      → Distinct same_issue_id rows
      → count_where (is_open_draft group_id issue_id now) rows ≡ 1
      → exists_where is_uncurated
          (update_where (is_open_draft group_id issue_id now) (mark_curated now) rows)
        ≡ false
  marked-Closed now [] d c = refl
  marked-Closed now (x ∷ xs) d c = elim (Bool-cases (issue_in group_id issue_id x)) [
    | inl is ↦ ground (arith, c, is, marked_absent now x xs is d.0, none_open now x xs is d.0)
    | inr is_not ↦ ground (arith, c, is_not, marked-Closed now xs d.1)
  ]

  -- No row is open to suggestions.
  pub Closed-draft :
      (now : ℕ) (rows : List Issue)
      → exists_where is_uncurated rows ≡ false
      → exists_where (is_open_draft group_id issue_id now) rows ≡ false
  Closed-draft now [] h = refl
  Closed-draft now (x ∷ xs) h = ground (arith, h, Closed-draft now xs)

  abbrev finish : ℕ → Exec (Unit {0})
  finish now = do
    n ← exec (update_issues (is_open_draft group_id issue_id now) (mark_curated now))
    expect_curated n

  expect_curated_ok :
      (n : ℕ) (w : World)
      → (expect_curated n w).0 ≡ ok tt
      → (n ≡ 1) × (expect_curated n w ≡ (ok tt, w))
  unfolding expect_curated pure raise
  expect_curated_ok n w h = ground arith

  finish-Closed :
      (now : ℕ) (w : World)
      → Distinct same_issue_id w.db.issues
      → (finish now w).0 ≡ ok tt
      → IsClosed (finish now w).1.db
  unfolding update_issues
  finish-Closed now w d h =
      let mark : Exec ℕ =
        exec (update_issues (is_open_draft group_id issue_id now) (mark_curated now)) in
      let (n, marked, next) = bind_ok mark expect_curated w h in
      let (db, did, after) =
        exec_ok (update_issues (is_open_draft group_id issue_id now) (mark_curated now)) w marked in
      let (one, stays) = expect_curated_ok n (mark w).1 (sym (ap (λ r. r.0) next) ∙ h) in
      let rows : (finish now w).1.db.issues
          ≡ update_where (is_open_draft group_id issue_id now) (mark_curated now) w.db.issues =
        ap (λ r. r.1.db.issues) (next ∙ stays) ∙ ap (λ e. e.issues) after ∙ cc in
      subst (λ l. exists_where is_uncurated l ≡ false) (sym rows)
        (marked-Closed now w.db.issues d (
          let count : count_where (is_open_draft group_id issue_id now) w.db.issues ≡ n = cc in
          count ∙ one))

  assemble-Closed :
      (target now : ℕ) (w : World)
      → Distinct same_issue_id w.db.issues
      → (assemble group_id issue_id target now w).0 ≡ ok tt
      → IsClosed (assemble group_id issue_id target now w).1.db
  unfolding assemble query_write
  assemble-Closed target now w d h =
      let count : Exec (ℕ × Bool) = query_write (question_counts issue_id) in
      let (n, counted, next) = bind_ok count _ w h in
      let w₁ : World = (count w).1 in
      let h₁ = sym (ap (λ r. r.0) next) ∙ h in
      let (m, stitched, next₁) = bind_ok (stitch_defaults group_id issue_id n.1 n.0) _ w₁ h₁ in
      let w₂ : World = (stitch_defaults group_id issue_id n.1 n.0 w₁).1 in
      let h₂ = sym (ap (λ r. r.0) next₁) ∙ h₁ in
      let (u, filled, next₂) =
        bind_ok (fill_slots group_id issue_id target m) (λ _. finish now) w₂ h₂ in
      let w₃ : World = (fill_slots group_id issue_id target m w₂).1 in
      let same : w₃.db.issues ≡ w.db.issues =
        (fill_slots-Respects group_id issue_id target m).at w₂
        ∙ (stitch_defaults-Respects group_id issue_id n.1 n.0).at w₁ in
      let done =
        finish-Closed now w₃ (subst (Distinct same_issue_id) (sym same) d)
          (sym (ap (λ r. r.0) next₂) ∙ h₂) in
      subst (λ r. IsClosed r.1.db) (sym (next ∙ next₁ ∙ next₂)) done

  curate-Closed :
      (target now : ℕ) (iss : Issue) (w : World)
      → Distinct same_issue_id w.db.issues
      → (curate group_id issue_id target now iss w).0 ≡ ok tt
      → IsClosed (curate group_id issue_id target now iss w).1.db
  unfolding curate
  curate-Closed target now iss w d h =
      let (ready, run) =
        guard_ok (not (is_draft iss.status && ltb now iss.opens_at)) not_curatable
          (assemble group_id issue_id target now) w tt h in
      subst (λ r. IsClosed r.1.db) (sym run)
        (assemble-Closed target now w d (sym (ap (λ r. r.0) run) ∙ h))

  -- What the body of the transaction says of the issue that it found.
  abbrev Outcome : Db → Result Bool × World → Type 0
  Outcome db r = ((r.0 ≡ ok true) → IsClosed r.1.db) × ((r.0 ≡ ok false) → IsClosed db)

  curated-Outcome :
      (target now : ℕ) (iss : Issue) (w : World)
      → Distinct same_issue_id w.db.issues
      → Outcome w.db ((curate group_id issue_id target now iss >> pure true) w)
  unfolding pure
  curated-Outcome target now iss w d = (
    λ h.
        (let (u, ran, next) =
            bind_ok (curate group_id issue_id target now iss) (λ _. pure true) w h in
          subst (λ r. IsClosed r.1.db) (sym next) (curate-Closed target now iss w d ran)),
    λ h.
        (let (u, ran, next) =
            bind_ok (curate group_id issue_id target now iss) (λ _. pure true) w h in
          absurd (let wrong : true ≡ false = cc (ap (λ r. r.0) next) in cc)),
  )

  curate_found-Outcome :
      (target now : ℕ) (w : World)
      → Distinct same_issue_id w.db.issues
      → Outcome w.db (
          curate_found group_id issue_id target now
            (first_where (issue_in group_id issue_id) w.db.issues)
            w)
  unfolding curate_found raise pure
  curate_found-Outcome target now w d =
      elim (Option-cases (first_where (issue_in group_id issue_id) w.db.issues)) [
        | inl gone ↦ rw gone (λ h. cc, λ h. cc)
        | inr (iss, found) ↦ elim (Bool-cases (is_none iss.questions_curated_at)) [
          | inl fresh ↦ rw found (rw fresh (curated-Outcome target now iss w d))
          | inr done ↦ rw found (rw done (λ h. cc, λ h. found-Closed w.db.issues iss d found done))
        ]
      ]

  abbrev pub body : ℕ → ℕ → Exec Bool
  body target now = do
    found ← query_write (λ db. ok (first_where (issue_in group_id issue_id) db.issues))
    curate_found group_id issue_id target now found

  body-Outcome :
      (target now : ℕ) (w : World)
      → Distinct same_issue_id w.db.issues
      → Outcome w.db (body target now w)
  unfolding query_write ◌>>=◌
  body-Outcome target now w d = elim (Bool-cases (next_fault w.faults)) [
    | inl bad ↦ rw bad (λ h. cc, λ h. cc)
    | inr good ↦ rw good (curate_found-Outcome target now (tick w) d)
  ]

-- A preparation of a draft's questions that returns no error leaves the issue curated, whether it
-- was so before or not. Ids of issues are unique.
pub prepare-IsClosed :
    (group_id issue_id target : ℕ) (w : World)
    → Distinct same_issue_id w.db.issues
    → (prepare_draft_questions group_id issue_id target w).0 ≡ ok tt
    → IsClosed group_id issue_id (prepare_draft_questions group_id issue_id target w).1.db
unfolding prepare_draft_questions get_now ◌>>=◌
prepare-IsClosed group_id issue_id target w d h =
    let (b, run) =
      guard_ok (target == 0) invalid_target
        (get_now >>= λ now. transaction_if (body group_id issue_id target now)) w tt h in
    let done = body-Outcome group_id issue_id target w.now (tick w) d in
    let h' : (transaction_if (body group_id issue_id target w.now) w).0 ≡ ok tt =
      sym (ap (λ r. r.0) run) ∙ h in
    subst (λ r. IsClosed group_id issue_id r.1.db) (sym run)
      (elim (transaction_if_ok (body group_id issue_id target w.now) w h') [
        | inl (ran, db) ↦ subst (IsClosed group_id issue_id) (sym db) (done.0 ran)
        | inr (left, db) ↦ subst (IsClosed group_id issue_id) (sym db) (done.1 left)
      ])
