-- ===== src/Store/Questions/Curation/Final.antt =====
-- internal/store/question_curation.go: a curated issue takes no more suggestions.
use piecesoflife.Prelude.{
  ℕ, ◌≡◌, ◌≢◌, refl, sym, ap, subst, ◌∙◌, String, true, false, Option, some, List, [], ◌∷◌, arith,
  ◌==◌, if◌then◌else◌, is_none, first_where, exists_where, Option-cases, Bool-cases, inl, inr,
}
use piecesoflife.Prelude.Distinct.{Distinct}
use piecesoflife.Store.Rows.{Db, Issue}
use piecesoflife.Store.Exec.{
  ok, World, Exec, exec, tick, next_fault, query_write, get_now, pure, raise,
  not_accepting_suggestions, ◌>>=◌,
}
use piecesoflife.Store.Exec.Inversion.{bind_ok, exec_ok, transaction_if_kept}
use piecesoflife.Store.WellFormed.{same_issue_id}
use piecesoflife.Store.Questions.Curation.{
  issue_in, curate_found, prepare_draft_questions, insert_suggestion, create_suggested_question,
}
use piecesoflife.Store.Questions.Curation.Closed.{
  is_uncurated, IsClosed, Closed-draft, body, prepare-IsClosed,
}

module _ (group_id issue_id : ℕ) (w : World) (closed : IsClosed group_id issue_id w.db) where
  insert_closed :
      (user_id : ℕ) (text : String) (category : Option String) (n : ℕ × ℕ) (d : Db)
      → insert_suggestion group_id issue_id user_id text category w.now w.db ≡ ok (n, d)
      → n.0 ≡ 0
  unfolding insert_suggestion
  insert_closed user_id text category n d h =
      ground (arith, h, Closed-draft group_id issue_id w.now w.db.issues closed)

  -- A curated issue accepts no suggestion.
  suggestion_refused :
      (user_id : ℕ) (text : String) (category : Option String) (n : ℕ)
      → (create_suggested_question group_id issue_id user_id text category w).0 ≢ ok n
  unfolding create_suggested_question get_now pure raise ◌>>=◌
  suggestion_refused user_id text category n h =
      let insert : Exec (ℕ × ℕ) =
        exec (insert_suggestion group_id issue_id user_id text category w.now) in
      let (r, inserted, next) =
        bind_ok insert (λ r. if r.0 == 1 then pure r.1 else raise not_accepting_suggestions) w h in
      let (d, did, after) =
        exec_ok (insert_suggestion group_id issue_id user_id text category w.now) w inserted in
      let shut = insert_closed user_id text category r d did in
      let run : ((if r.0 == 1 then pure r.1 else raise not_accepting_suggestions) (insert w).1).0
          ≡ ok n =
        sym (ap (λ q. q.0) next) ∙ h in
      ground (arith, shut, run)

  first_curated :
      (rows : List Issue) (iss : Issue)
      → exists_where (is_uncurated group_id issue_id) rows ≡ false
      → first_where (issue_in group_id issue_id) rows ≡ some iss
      → is_none iss.questions_curated_at ≡ false
  first_curated [] iss h f = cc
  first_curated (x ∷ xs) iss h f = ground (arith, h, f, first_curated xs iss)

  found_shut :
      (target now : ℕ) (v : World)
      → (curate_found group_id issue_id target now
          (first_where (issue_in group_id issue_id) w.db.issues)
          v).0
        ≢ ok true
  unfolding curate_found raise pure
  found_shut target now v =
      elim (Option-cases (first_where (issue_in group_id issue_id) w.db.issues)) [
        | inl gone ↦ rw gone (λ h. cc)
        | inr (iss, found) ↦ rw found (rw (first_curated w.db.issues iss closed found) (λ h. cc))
      ]

  body_shut : (target now : ℕ) → (body group_id issue_id target now (tick w)).0 ≢ ok true
  unfolding query_write ◌>>=◌
  body_shut target now = elim (Bool-cases (next_fault (tick w).faults)) [
    | inl bad ↦ rw bad (λ h. cc)
    | inr good ↦ rw good (found_shut target now (tick (tick w)))
  ]

  prepare_shut : (target : ℕ) → (prepare_draft_questions group_id issue_id target w).1.db ≡ w.db
  unfolding prepare_draft_questions get_now raise ◌>>=◌
  prepare_shut target = elim (Bool-cases (target == 0)) [
    | inl zero ↦ rw zero refl
    | inr positive ↦
        rw positive
          (transaction_if_kept (body group_id issue_id target w.now) w (body_shut target w.now))
  ]

-- Once a preparation of a draft's questions has returned without an error, as long as the database
-- stays as it left it, every suggestion for the issue is refused and every further preparation
-- changes nothing, at any time and whatever statements fail. Ids of issues are unique.
pub prepared_is_final :
    (group_id issue_id target : ℕ) (w v : World)
    → Distinct same_issue_id w.db.issues
    → (prepare_draft_questions group_id issue_id target w).0 ≡ ok tt
    → v.db ≡ (prepare_draft_questions group_id issue_id target w).1.db
    → ((user_id : ℕ) (text : String) (category : Option String) (n : ℕ)
        → (create_suggested_question group_id issue_id user_id text category v).0 ≢ ok n)
      × ((again : ℕ) → (prepare_draft_questions group_id issue_id again v).1.db ≡ v.db)
prepared_is_final group_id issue_id target w v d h at =
    let closed =
      subst (IsClosed group_id issue_id) (sym at)
        (prepare-IsClosed group_id issue_id target w d h) in
    (suggestion_refused group_id issue_id v closed, prepare_shut group_id issue_id v closed)
