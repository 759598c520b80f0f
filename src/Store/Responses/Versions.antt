-- ===== src/Store/Responses/Versions.antt =====
-- internal/store/response.go: what two saves of one version of a draft lead to.
use piecesoflife.Prelude.{
  ℕ, String, suc, ◌≡◌, refl, sym, ap, subst, ◌∙◌, true, Option, none, some, List, [], ◌∷◌, arith,
  ◌==◌, ==→eq, first_where, update_where, first_where-update, first_where-holds, Bool-cases, inl,
  inr,
}
use piecesoflife.Store.Rows.{Db}
use piecesoflife.Store.Tables.{Response, BlockType}
use piecesoflife.Store.Exec.{
  Err, Result, ok, err, version_conflict, World, Exec, tick, query_write, exec, pure, raise,
  get_now, ◌>>=◌,
}
use piecesoflife.Store.Exec.Respects.{
  IsPreorder, Respects, Respects-bind, Respects-exec, respects_rules, Grants, Grants-ok,
  grants_rules,
}
use piecesoflife.Store.Exec.Inversion.{
  bind_ok, exec_ok, transaction_ok, transaction_err, query_write_ok,
}
use piecesoflife.Store.Sql.{first_row}
use piecesoflife.Store.Responses.{
  DraftBlock, is_response, insert_block, insert_text_block, insert_text_blocks, delete_text_blocks,
  increment_version, rewrite_text, replace_text, with_responses, checked_save, autosave_response,
}

-- The answers stay as they are.
abbrev SameResponses : Db → Db → Type 0
SameResponses d e = e.content.responses ≡ d.content.responses

SameResponses-preorder : IsPreorder SameResponses
SameResponses-preorder = record { same = λ d. refl; chain = λ d e f p q. q ∙ p }

insert_block-SameResponses :
    (id : ℕ) (t : BlockType) (a b c d : Option String) (n now : ℕ) (db : Db)
    → Grants SameResponses db (insert_block id t a b c d n now db)
unfolding insert_block
insert_block-SameResponses id t a b c d n now db = search (grants_rules, refl) depth 9

delete_text-SameResponses : (id : ℕ) (db : Db) → Grants SameResponses db (delete_text_blocks id db)
delete_text-SameResponses id db = Grants-ok refl

ruleset same_rules = (
  respects_rules, SameResponses-preorder, Respects-exec, insert_block-SameResponses,
  delete_text-SameResponses,
)

insert_text_block-Respects :
    (id now i : ℕ) (b : DraftBlock) → Respects SameResponses (insert_text_block id now i b)
unfolding insert_text_block
insert_text_block-Respects id now i b = search same_rules depth 9

insert_text_blocks-Respects :
    (id now : ℕ) (bs : List DraftBlock) (i : ℕ)
    → Respects SameResponses (insert_text_blocks id now i bs)
unfolding insert_text_blocks
insert_text_blocks-Respects id now [] i = search same_rules
insert_text_blocks-Respects id now (b ∷ bs) i =
    Respects-bind SameResponses-preorder _ _ (insert_text_block-Respects id now i b)
      (λ _. insert_text_blocks-Respects id now bs (suc i))

module _ (id : ℕ) where
  -- The version that the answer has.
  abbrev pub HasVersion : ℕ → Db → Type 0
  HasVersion v db =
      (r : Response) × (first_where (is_response id) db.content.responses ≡ some r)
      × (r.version ≡ v)

  rewrite_text-Respects :
      (now : ℕ) (bs : List DraftBlock) → Respects SameResponses (rewrite_text id now bs)
  unfolding rewrite_text
  rewrite_text-Respects now bs = search (same_rules, insert_text_blocks-Respects) depth 12

  bumped :
      (r : Response) (d e : Db)
      → first_where (is_response id) d.content.responses ≡ some r
      → increment_version id d ≡ ok (tt, e)
      → HasVersion (suc r.version) e
  bumped r d e at h =
      let bump : Response → Response = λ q. record q { version = suc q.version } in
      let found =
        first_where-update (is_response id) (is_response id) bump d.content.responses r (λ q. refl)
          at in
      let hit : is_response id r ≡ true =
        first_where-holds (is_response id) d.content.responses r at in
      let new : with_responses (update_where (is_response id) bump d.content.responses) d ≡ e =
        cc in
      subst (HasVersion (suc r.version)) new (bump r, found ∙ rw hit refl, refl)

  replaced :
      (now : ℕ) (bs : List DraftBlock) (r : Response) (w : World)
      → first_where (is_response id) w.db.content.responses ≡ some r
      → (replace_text id now bs w).0 ≡ ok tt
      → HasVersion (suc r.version) (replace_text id now bs w).1.db
  unfolding replace_text
  replaced now bs r w at h =
      let (u, rewritten, next) =
        bind_ok (rewrite_text id now bs) (λ _. exec (increment_version id)) w h in
      let w' : World = (rewrite_text id now bs w).1 in
      let (d, did, after) = exec_ok (increment_version id) w' (sym (ap (λ r. r.0) next) ∙ h) in
      let still : first_where (is_response id) w'.db.content.responses ≡ some r =
        ap (first_where (is_response id)) ((rewrite_text-Respects now bs).at w) ∙ at in
      subst (HasVersion (suc r.version)) (sym (ap (λ r. r.1.db) next ∙ after))
        (bumped r w'.db d still did)

  checked_ok :
      (expected n now : ℕ) (bs : List DraftBlock) (r : Response) (w : World)
      → first_where (is_response id) w.db.content.responses ≡ some r
      → (checked_save id expected now bs r w).0 ≡ ok n
      → (n ≡ suc expected)
        × HasVersion (suc expected) (checked_save id expected now bs r w).1.db
        × (r.version ≡ expected)
  unfolding pure raise
  checked_ok expected n now bs r w at h = elim (Bool-cases (r.version == expected)) [
    | inl matches ↦
        let run : (checked_save id expected now bs r w)
            ≡ (replace_text id now bs >>= λ _. pure (suc r.version)) w =
          rw matches refl in
        let (u, ran, next) =
          bind_ok (replace_text id now bs) (λ _. pure (suc r.version)) w
            (sym (ap (λ q. q.0) run) ∙ h) in
        let v : r.version ≡ expected = ==→eq r.version expected matches in
        let got : suc r.version ≡ n = cc (ap (λ q. q.0) (run ∙ next)) in
        (
          sym got ∙ ap suc v,
          subst (λ k. HasVersion (suc k) (checked_save id expected now bs r w).1.db) v
              (subst (λ q. HasVersion (suc r.version) q.1.db) (sym (run ∙ next))
                (replaced now bs r w at ran)),
          v,
        )
    | inr differs ↦
        let run : (checked_save id expected now bs r w) ≡ (err (version_conflict r.version), w) =
          rw differs refl in
        absurd
          (let wrong : err (version_conflict r.version) ≡ ok n = sym (ap (λ q. q.0) run) ∙ h in cc)
  ]

  abbrev find : Exec Response
  find = query_write (λ db. first_row (first_where (is_response id) db.content.responses))

  first_row_ok : (o : Option Response) (r : Response) → first_row o ≡ ok r → o ≡ some r
  first_row_ok none r h = cc
  first_row_ok (some q) r h = cc

  -- A save that succeeds gives the next version, and the answer has it.
  pub saved :
      (expected n : ℕ) (bs : List DraftBlock) (w : World)
      → (autosave_response id expected bs w).0 ≡ ok n
      → (n ≡ suc expected)
        × HasVersion (suc expected) (autosave_response id expected bs w).1.db
        × HasVersion expected w.db
  unfolding autosave_response get_now query_write ◌>>=◌
  saved expected n bs w h =
      let body : Exec ℕ = find >>= checked_save id expected w.now bs in
      let (ran, db) = transaction_ok body w h in
      let (r, found, next) = bind_ok find (checked_save id expected w.now bs) (tick w) ran in
      let at = first_row_ok (first_where (is_response id) w.db.content.responses) r (
        query_write_ok (λ (d : Db). first_row (first_where (is_response id) d.content.responses))
          (tick w) r found) in
      let checked =
        checked_ok expected n w.now bs r (tick (tick w)) at (sym (ap (λ q. q.0) next) ∙ ran) in
      (
        checked.0,
        subst (HasVersion (suc expected)) (sym (db ∙ ap (λ q. q.1.db) next)) checked.1,
        (r, at, checked.2),
      )

  -- An answer has one version.
  one_version : (d : Db) (m n : ℕ) → HasVersion m d → HasVersion n d → m ≡ n
  one_version d m n (q, at, v) (r, at', v') =
      let same : q ≡ r = cc in sym v ∙ ap (λ (r : Response). r.version) same ∙ v'

  refused :
      (expected : ℕ) (cs : List DraftBlock) (v : World) (r : Result ℕ)
      → HasVersion (suc expected) v.db
      → (autosave_response id expected cs v).0 ≡ r
      → (e : Err) × ((autosave_response id expected cs v).0 ≡ err e)
        × ((autosave_response id expected cs v).1.db ≡ v.db)
  unfolding autosave_response get_now ◌>>=◌
  refused expected cs v (ok m) has h =
      let before = (saved expected m cs v h).2 in
      absurd (omega (arith, one_version v.db expected (suc expected) before has))
  refused expected cs v (err e) has h =
      (e, h, transaction_err (find >>= checked_save id expected v.now cs) v h)

-- Of two saves that name the same version of an answer, with no other change of the database
-- between them, the second is refused whatever the first one wrote, and writes nothing itself.
pub one_save_per_version :
    (id expected n : ℕ) (bs cs : List DraftBlock) (w v : World)
    → (autosave_response id expected bs w).0 ≡ ok n
    → v.db ≡ (autosave_response id expected bs w).1.db
    → (n ≡ suc expected)
      × (e : Err) × ((autosave_response id expected cs v).0 ≡ err e)
      × ((autosave_response id expected cs v).1.db ≡ v.db)
one_save_per_version id expected n bs cs w v h at =
    let first = saved id expected n bs w h in
    let (e, no_save, kept) =
      refused id expected cs v (autosave_response id expected cs v).0
        (subst (HasVersion id (suc expected)) (sym at) first.1) refl in
    (first.0, e, no_save, kept)
