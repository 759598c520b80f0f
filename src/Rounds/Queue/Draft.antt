-- ===== src/Rounds/Queue/Draft.antt =====
-- internal/server/actions.go: the draft that queueing the next round finds, moves or creates.
use piecesoflife.Prelude.{
  ℕ, suc, ◌+◌, ◌≡◌, refl, sym, ap, subst, ◌∙◌, Bool, true, false, ◌&&◌, Option, none, some, List,
  [], ◌∷◌, ◌==◌, ltb, arith, ==_refl, exists_where, earliest_where, sooner, Bool-cases, inl, inr,
  zero,
}
use piecesoflife.Prelude.Distinct.{exists_where-append, exists_where-update}
use piecesoflife.Store.Rows.{Db, Issue, Settings, EventType, is_draft}
use piecesoflife.Store.Exec.{Result, ok, World, Exec, pure, query, exec, get_now, ◌>>=◌}
use piecesoflife.Store.Exec.Respects.{
  IsPreorder, Respects, Respects-bind, Respects-exec, Respects-pure, Respects-raise, Respects-query,
  respects_rules, Grants, Grants-ok,
}
use piecesoflife.Store.Exec.Inversion.{bind_ok, exec_ok}
use piecesoflife.Store.Sql.{issue_is_draft}
use piecesoflife.Store.Events.{delete_pending_group_events_by_type, delete_group_events}
use piecesoflife.Store.Issues.{
  is_draft_of, is_draft_row, reschedule, update_issues, expect_one, update_one_issue,
  update_issue_schedule, insert_issue, new_issue, create_issue, get_next_draft_issue,
}
use piecesoflife.Store.Labels.{
  is_taken, label_walk, next_available_label, next_available_issue_label,
}
use piecesoflife.Rounds.{Calendar, default_deadline}
use piecesoflife.Rounds.Queue.{issue_label, create_next_draft, re_anchor_draft, ensure_next_draft}

-- The group has this draft.
abbrev pub HasDraft : ℕ → ℕ → Db → Type 0
HasDraft g k db = issue_is_draft db g (some k) ≡ true

abbrev KeepsDraft : ℕ → ℕ → Db → Db → Type 0
KeepsDraft g k d e = HasDraft g k d → HasDraft g k e

KeepsDraft-preorder : (g k : ℕ) → IsPreorder (KeepsDraft g k)
KeepsDraft-preorder g k = record { same = λ d h. h; chain = λ d e f p q h. q (p h) }

pub earliest-exists {ℓ} :
    {A : Type ℓ} (p q : A → Bool) (key : A → ℕ) (xs : List A) (x : A)
    → earliest_where p key xs ≡ some x
    → q x ≡ true
    → exists_where (λ y. q y && p y) xs ≡ true
earliest-exists p q key [] x h e = cc
earliest-exists p q key (y ∷ ys) x h e = ground (arith, h, e, earliest-exists p q key ys x)

exists_where-same {ℓ} :
    {A : Type ℓ} (p q : A → Bool) (xs : List A)
    → ((x : A) → p x ≡ q x)
    → exists_where p xs ≡ true
    → exists_where q xs ≡ true
exists_where-same p q [] same h = h
exists_where-same p q (x ∷ xs) same h = ground (arith, h, same x, exists_where-same p q xs same)

pub exists-earliest {ℓ} :
    {A : Type ℓ} (p : A → Bool) (key : A → ℕ) (xs : List A)
    → exists_where p xs ≡ true
    → (x : A) × (earliest_where p key xs ≡ some x)
exists-earliest p key [] h = cc
exists-earliest p key (x ∷ xs) h = elim (Bool-cases (p x)) [
  | inl e ↦ (sooner key x (earliest_where p key xs), rw e refl)
  | inr e ↦ let (y, is) = exists-earliest p key xs (ground (arith, h, e)) in (y, rw e is)
]

module _ (g k : ℕ) where
  update_issues-KeepsDraft :
      (id month year opens_at deadline : ℕ) (db : Db)
      → Grants
          (KeepsDraft g k)
          db
          (update_issues (is_draft_row id) (reschedule month year opens_at deadline) db)
  unfolding update_issues
  update_issues-KeepsDraft id month year opens_at deadline db = Grants-ok (λ h.
      exists_where-update (λ (iss : Issue). iss.id == k && iss.group_id == g && is_draft iss.status)
        (is_draft_row id) (reschedule month year opens_at deadline) db.issues (λ x. refl)
      ∙ h)

  ruleset draft_rules =
      (respects_rules, KeepsDraft-preorder, Respects-exec, update_issues-KeepsDraft)

  expect_one-KeepsDraft : (n : ℕ) → Respects (KeepsDraft g k) (expect_one n)
  unfolding expect_one
  expect_one-KeepsDraft n = search draft_rules

  update_issue_schedule-KeepsDraft :
      (id month year opens_at deadline : ℕ)
      → Respects (KeepsDraft g k) (update_issue_schedule id month year opens_at deadline)
  unfolding update_issue_schedule update_one_issue
  update_issue_schedule-KeepsDraft id month year opens_at deadline =
      search (draft_rules, expect_one-KeepsDraft) depth 9

  label_walk-KeepsDraft :
      (group_id exclude_id base_month base_year left offset : ℕ)
      → Respects
          (KeepsDraft g k)
          (label_walk query group_id exclude_id base_month base_year left offset)
  unfolding label_walk
  label_walk-KeepsDraft group_id exclude_id base_month base_year zero offset =
      Respects-raise (KeepsDraft-preorder g k) _
  label_walk-KeepsDraft group_id exclude_id base_month base_year (suc left) offset =
      Respects-bind (KeepsDraft-preorder g k)
        (query (λ db. ok (is_taken group_id exclude_id base_month base_year offset db))) _
        (Respects-query (KeepsDraft-preorder g k) _)
        (elim [
          | true ↦ label_walk-KeepsDraft group_id exclude_id base_month base_year left (offset + 1)
          | false ↦ Respects-pure (KeepsDraft-preorder g k) _
        ])

  issue_label-KeepsDraft :
      (group_id exclude_id month year : ℕ)
      → Respects (KeepsDraft g k) (issue_label group_id exclude_id month year)
  unfolding issue_label next_available_issue_label next_available_label
  issue_label-KeepsDraft group_id exclude_id month year =
      search (draft_rules, label_walk-KeepsDraft) depth 9

insert_issue_drafts :
    (g month year opens_at deadline now id : ℕ) (db d : Db)
    → insert_issue g none month year opens_at deadline now db ≡ ok (id, d)
    → HasDraft g id d
unfolding insert_issue
insert_issue_drafts g month year opens_at deadline now id db d h = ground (
  arith,
  h,
  ==_refl g,
  ==_refl (suc db.issue_seq),
  exists_where-append
      (λ (iss : Issue). iss.id == suc db.issue_seq && iss.group_id == g && is_draft iss.status)
      db.issues (new_issue db g none month year opens_at deadline now),
)

issue_drafts :
    (g month year opens_at deadline id : ℕ) (w : World)
    → (create_issue g none month year opens_at deadline w).0 ≡ ok id
    → HasDraft g id (create_issue g none month year opens_at deadline w).1.db
unfolding create_issue get_now ◌>>=◌
issue_drafts g month year opens_at deadline id w h =
    let (d, stmt, is_d) = exec_ok (insert_issue g none month year opens_at deadline w.now) w h in
    subst (HasDraft g id) (sym is_d)
      (insert_issue_drafts g month year opens_at deadline w.now id w.db d stmt)

pure_ok {ℓ} : {A : Type ℓ} (a b : A) (w : World) → (pure a w).0 ≡ ok b → a ≡ b
unfolding pure
pure_ok a b w h = cc

draft_in_view :
    (g : ℕ) (w : World) (d : Issue)
    → w.frozen ≡ none
    → (get_next_draft_issue g w).0 ≡ ok (some d)
    → HasDraft g d.id (get_next_draft_issue g w).1.db
unfolding get_next_draft_issue query
draft_in_view g w d fresh h =
    let found : earliest_where (is_draft_of g) (λ (iss : Issue). iss.opens_at) w.db.issues
        ≡ some d =
      ground (arith, h, fresh) in
    exists_where-same (λ iss. iss.id == d.id && is_draft_of g iss)
      (λ iss. iss.id == d.id && iss.group_id == g && is_draft iss.status) w.db.issues
      (λ iss. ground arith)
      (earliest-exists (is_draft_of g) (λ (iss : Issue). iss.id == d.id) (λ iss. iss.opens_at)
        w.db.issues d found (==_refl d.id))

exec_frozen {ℓ} :
    {A : Type ℓ} (s : Db → Result (A × Db)) (w : World) → (exec s w).1.frozen ≡ w.frozen
unfolding exec
exec_frozen s w = ground arith

pub delete_frozen :
    (g : ℕ) (t : Option EventType) (w : World)
    → (delete_pending_group_events_by_type g t w).1.frozen ≡ w.frozen
unfolding delete_pending_group_events_by_type
delete_frozen g t w = exec_frozen (delete_group_events g t) w

pub drafts_in_view :
    (g : ℕ) (w : World) (found : Option Issue) (d : Issue)
    → w.frozen ≡ none
    → (get_next_draft_issue g w).0 ≡ ok found
    → found ≡ some d
    → HasDraft g d.id (get_next_draft_issue g w).1.db
drafts_in_view g w found d fresh h is = draft_in_view g w d fresh (h ∙ ap ok is)

module _ {Zone : Type 0} (cal : Calendar Zone) (st : Settings) where
  created_draft :
      (loc : Zone) (t id : ℕ) (w : World)
      → (create_next_draft cal st loc t w).0 ≡ ok id
      → HasDraft st.group_id id (create_next_draft cal st loc t w).1.db
  unfolding create_next_draft
  created_draft loc t id w h =
      let label = issue_label st.group_id 0 (cal.civil loc t).month (cal.civil loc t).year in
      let make =
        λ (l : ℕ × ℕ). create_issue st.group_id none l.0 l.1 t (default_deadline cal t st loc) in
      let (l, labelled, run) = bind_ok label make w h in
      rw run (
        issue_drafts st.group_id l.0 l.1 t (default_deadline cal t st loc) id (label w).1
          (ap (λ p. p.0) (sym run) ∙ h))

  re_anchor_draft-KeepsDraft :
      (loc : Zone) (d : Issue) (t : ℕ)
      → Respects (KeepsDraft st.group_id d.id) (re_anchor_draft cal st loc d t)
  unfolding re_anchor_draft
  re_anchor_draft-KeepsDraft loc d t =
      search
        (
          respects_rules, KeepsDraft-preorder, issue_label-KeepsDraft,
          update_issue_schedule-KeepsDraft,
        )
        depth 9

  abbrev move_steps : Zone → ℕ → Issue → Exec (ℕ × ℕ)
  move_steps loc t d = re_anchor_draft cal st loc d t >>= λ _. pure (d.id, t)

  abbrev fresh_steps : Zone → ℕ → Exec (ℕ × ℕ)
  fresh_steps loc t = create_next_draft cal st loc t >>= λ id. pure (id, t)

  moved_draft :
      (loc : Zone) (t : ℕ) (d : Issue) (r : ℕ × ℕ) (w : World)
      → HasDraft st.group_id d.id w.db
      → (move_steps loc t d w).0 ≡ ok r
      → HasDraft st.group_id r.0 (move_steps loc t d w).1.db
  unfolding pure
  moved_draft loc t d r w draft h =
      let end : Unit {0} → Exec (ℕ × ℕ) = λ _. pure (d.id, t) in
      let (u, done, run) = bind_ok (re_anchor_draft cal st loc d t) end w h in
      let same : (d.id, t) ≡ r =
        pure_ok (d.id, t) r (re_anchor_draft cal st loc d t w).1 (ap (λ p. p.0) (sym run) ∙ h) in
      subst (λ (q : ℕ × ℕ). HasDraft st.group_id q.0 (move_steps loc t d w).1.db) same
        (subst (λ (p : Result (ℕ × ℕ) × World). HasDraft st.group_id d.id p.1.db) (sym run)
          ((re_anchor_draft-KeepsDraft loc d t).at w draft))

  fresh_draft :
      (loc : Zone) (t : ℕ) (r : ℕ × ℕ) (w : World)
      → (fresh_steps loc t w).0 ≡ ok r
      → HasDraft st.group_id r.0 (fresh_steps loc t w).1.db
  unfolding pure
  fresh_draft loc t r w h =
      let make = create_next_draft cal st loc t in
      let end : ℕ → Exec (ℕ × ℕ) = λ id. pure (id, t) in
      let (id, made, run) = bind_ok make end w h in
      let same : (id, t) ≡ r = pure_ok (id, t) r (make w).1 (ap (λ p. p.0) (sym run) ∙ h) in
      subst (λ (q : ℕ × ℕ). HasDraft st.group_id q.0 (fresh_steps loc t w).1.db) same
        (subst (λ (p : Result (ℕ × ℕ) × World). HasDraft st.group_id id p.1.db) (sym run)
          (created_draft loc t id w made))

  pub ensured :
      (loc : Zone) (now t : ℕ) (found : Option Issue) (r : ℕ × ℕ) (w : World)
      → ((d : Issue) → found ≡ some d → HasDraft st.group_id d.id w.db)
      → (ensure_next_draft cal st loc now t found w).0 ≡ ok r
      → HasDraft st.group_id r.0 (ensure_next_draft cal st loc now t found w).1.db
  unfolding ensure_next_draft pure
  ensured loc now t none r w drafts h = fresh_draft loc t r w h
  ensured loc now t (some d) r w drafts h = elim (Bool-cases (ltb (now + 43200) d.opens_at)) [
    | inl e ↦ rw e (
        subst (λ q. HasDraft st.group_id q.0 w.db) (pure_ok (d.id, d.opens_at) r w (rw e at h))
          (drafts d refl))
    | inr e ↦ rw e (moved_draft loc t d r w (drafts d refl) (rw e at h))
  ]
