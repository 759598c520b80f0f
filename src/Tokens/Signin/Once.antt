-- ===== src/Tokens/Signin/Once.antt =====
-- internal/server/auth.go: what a link that signs in leaves behind.
use piecesoflife.Prelude.{
  ℕ, ◌≤◌, ◌≡◌, ◌≢◌, refl, sym, ap, subst, ◌∙◌, String, Bool, true, false, not, Option, none, some,
  [], ◌∷◌, ◌++◌, arith, if◌then◌else◌, ltb, is_none, count_where, first_where,
}
use piecesoflife.Store.Rows.{Db, AuthToken, Session}
use piecesoflife.Store.Tables.{User}
use piecesoflife.Store.Exec.{
  Err, Result, ok, err, World, Exec, view, pure, raise, query, exec, attempt, get_now, get_hash,
  ◌>>=◌,
}
use piecesoflife.Store.Exec.Inversion.{bind_rest, exec_ok, query_ok}
use piecesoflife.Store.Sql.{first_row}
use piecesoflife.Store.Auth.{
  token_with, get_auth_token_by_hash, is_unconsumed, consume, consume_row, consume_auth_token,
  insert_session, create_session,
}
use piecesoflife.Store.Auth.Once.{consumed_db, count_where-update, unconsumed_off}
use piecesoflife.Store.Members.{get_user_by_id}
use piecesoflife.Tokens.{Crypto, is_empty, sha256_hex}
use piecesoflife.Tokens.Signin.{
  Landing, home, used, failed, expired, renewed, invalid, new_login_token, is_already_consumed,
  landing_of, create_session_and_set_cookie, sign_in, after_consume, consume_and_sign_in, renew,
  is_login, check_age, verify_token, handle_verify_token,
}

-- One session more, of this user, and the tokens as before.
pub record HasStarted (user_id : ℕ) (d e : Db) : Type 0 where
  pub session : Session
  pub is_theirs : session.user_id ≡ user_id
  pub is_only_one : e.sessions ≡ d.sessions ++ session ∷ []
  pub keeps_tokens : e.tokens ≡ d.tokens

only_way {ℓ} :
    {A : Type ℓ} (taken allowed : Bool) (new a : A) (e e' : Err)
    → (if taken then err e else if allowed then ok new else err e') ≡ ok a
    → new ≡ a
only_way taken allowed new a e e' h = ground arith

insert_session-HasStarted :
    (user_id expires_at : ℕ) (hash : String) (group_id : Option ℕ) (d e : Db)
    → insert_session user_id hash expires_at group_id d ≡ ok (tt, e)
    → HasStarted user_id d e
unfolding insert_session
insert_session-HasStarted user_id expires_at hash group_id d e h =
    let same = only_way _ _ _ _ _ _ h in
    subst (λ p. HasStarted user_id d p.1) same
      record { session = _; is_theirs = refl; is_only_one = refl; keeps_tokens = refl }

attempt_ok {ℓ} :
    {A : Type ℓ} (m : Exec A) (w : World) (r : Result A) → (attempt m w).0 ≡ ok r → (m w).0 ≡ r
unfolding attempt
attempt_ok m w r h = cc

create-HasStarted :
    (user_id : ℕ) (w : World)
    → (create_session_and_set_cookie user_id w).0 ≡ ok tt
    → HasStarted user_id w.db (create_session_and_set_cookie user_id w).1.db
unfolding create_session_and_set_cookie create_session get_hash get_now attempt get_user_by_id query
create-HasStarted user_id w h =
    let (hash, x, h1, p1) = bind_rest get_hash _ w tt h in
    let (now, y, h2, p2) = bind_rest get_now _ _ tt h1 in
    let (user, z, h3, p3) = bind_rest (attempt (get_user_by_id user_id)) _ _ tt h2 in
    let (e, inserted, left) = exec_ok _ _ h3 in
    subst (HasStarted user_id w.db) (sym left ∙ sym (ap (λ v. v.db) (p1 ∙ p2 ∙ p3)))
      (insert_session-HasStarted user_id _ hash _ w.db e inserted)

home_only : (r : Result (Unit {0})) → landing_of r ≡ home → r ≡ ok tt
home_only (ok u) h = refl
home_only (err e) h = absurd (cc)

sign_in-HasStarted :
    (user_id : ℕ) (w : World)
    → (sign_in user_id w).0 ≡ ok home
    → HasStarted user_id w.db (sign_in user_id w).1.db
unfolding sign_in attempt pure
sign_in-HasStarted user_id w h =
    let (r, x, h1, p) = bind_rest (attempt (create_session_and_set_cookie user_id)) _ w home h in
    let created : (create_session_and_set_cookie user_id w).0 ≡ ok tt =
      attempt_ok (create_session_and_set_cookie user_id) w r x ∙ home_only r (cc h1) in
    subst (λ v. HasStarted user_id w.db v.db) (sym p) (create-HasStarted user_id w created)

not_home : (b : Bool) → (if b then used else failed) ≢ home
not_home b h = ground arith

ok_same {ℓ} : {A : Type ℓ} (a b : A) → ok a ≡ ok b → a ≡ b
ok_same a b h = cc

after_consume_home :
    (user_id : ℕ) (r : Result (Unit {0})) (w : World)
    → (after_consume user_id r w).0 ≡ ok home
    → (r ≡ ok tt) × (after_consume user_id r w ≡ sign_in user_id w)
unfolding after_consume pure
after_consume_home user_id (ok u) w h = (refl, refl)
after_consume_home user_id (err e) w h = absurd (not_home (is_already_consumed e) (ok_same _ _ h))

had_one :
    (id : ℕ) (w : World)
    → (consume_auth_token id w).0 ≡ ok tt
    → (count_where (is_unconsumed id) w.db.tokens ≢ 0)
      × ((consume_auth_token id w).1.db.sessions ≡ w.db.sessions)
unfolding consume_auth_token consume_row exec get_now pure raise ◌>>=◌
had_one id w h = ground arith

-- What a link that signs in with this token does.
pub record IsSpentBy (token : AuthToken) (d e : Db) : Type 0 where
  pub session : Session
  pub is_theirs : session.user_id ≡ token.user_id
  pub is_only_one : e.sessions ≡ d.sessions ++ session ∷ []
  pub was_unspent : count_where (is_unconsumed token.id) d.tokens ≢ 0
  pub is_spent : count_where (is_unconsumed token.id) e.tokens ≡ 0

consume-IsSpentBy :
    (token : AuthToken) (w : World)
    → (consume_and_sign_in token w).0 ≡ ok home
    → IsSpentBy token w.db (consume_and_sign_in token w).1.db
unfolding consume_and_sign_in attempt
consume-IsSpentBy token w h =
    let (r, x, h1, p) = bind_rest (attempt (consume_auth_token token.id)) _ w home h in
    let v : World = (consume_auth_token token.id w).1 in
    let (went, run) = after_consume_home token.user_id r v h1 in
    let consumed = attempt_ok (consume_auth_token token.id) w r x ∙ went in
    let started = sign_in-HasStarted token.user_id v (sym (ap (λ q. q.0) run) ∙ h1) in
    let (had, same) = had_one token.id w consumed in
    subst (λ u. IsSpentBy token w.db u.db) (sym (p ∙ ap (λ q. q.1) run))
      record {
        session = started.session;
        is_theirs = started.is_theirs;
        is_only_one = started.is_only_one ∙ ap (λ l. l ++ started.session ∷ []) same;
        was_unspent = had;
        is_spent =
            ap (count_where (is_unconsumed token.id))
              (started.keeps_tokens ∙ consumed_db token.id w consumed)
            ∙ count_where-update (is_unconsumed token.id) (consume w.now) w.db.tokens
                (unconsumed_off token.id w.now);
      }

was_true : (b : Bool) → not b ≡ false → b ≡ true
was_true b h = ground arith

not_later : (now t e : ℕ) → t ≡ now → ltb e now ≡ false → t ≤ e
not_later now t e h k = ground arith

renew_not_home : (token : AuthToken) (r : Result User) (w : World) → (renew token r w).0 ≢ ok home
unfolding renew pure
renew_not_home token (err e) w h = absurd (let wrong = ok_same expired home h in cc)
renew_not_home token (ok user) w h =
    let (a, x, h1, p) = bind_rest (attempt (consume_auth_token token.id)) _ w home h in
    let (b, y, h2, q) = bind_rest (attempt (new_login_token user.id)) _ _ home h1 in
    absurd (let wrong = ok_same renewed home h2 in cc)

lookup_not_home :
    (token : AuthToken) (w : World)
    → ((do user ← attempt (get_user_by_id token.user_id); renew token user) w).0 ≢ ok home
lookup_not_home token w h =
    let (r, x, h1, p) = bind_rest (attempt (get_user_by_id token.user_id)) (renew token) w home h in
    renew_not_home token r _ h1

-- The good branch of a test is the only one that leads home.
second_way :
    (b : Bool) (m n : Exec Landing) (w : World)
    → (m w).0 ≢ ok home
    → ((if b then m else n) w).0 ≡ ok home
    → (b ≡ false) × ((if b then m else n) w ≡ n w)
second_way true m n w h k = absurd (h k)
second_way false m n w h k = (refl, refl)

check_age_home :
    (token : AuthToken) (w : World)
    → (check_age token w).0 ≡ ok home
    → (w.now ≤ token.expires_at) × IsSpentBy token w.db (check_age token w).1.db
unfolding check_age get_now
check_age_home token w h =
    let (now, x, h1, p) = bind_rest get_now _ w home h in
    let (young, run) = second_way _ _ _ w (lookup_not_home token w) h1 in
    (
      not_later now w.now token.expires_at (ok_same w.now now x) young,
      subst (λ u. IsSpentBy token w.db u.db) (sym (p ∙ ap (λ q. q.1) run))
          (consume-IsSpentBy token w (sym (ap (λ q. q.0) run) ∙ h1)),
    )

abbrev pub IsGood : AuthToken → Type 0
IsGood token = (is_none token.consumed_at ≡ true) × (is_login token.token_type ≡ true)

verify_token_home :
    (r : Result AuthToken) (w : World)
    → (verify_token r w).0 ≡ ok home
    → (token : AuthToken) × (r ≡ ok token)
      × IsGood token
      × (w.now ≤ token.expires_at)
      × IsSpentBy token w.db (verify_token r w).1.db
unfolding verify_token pure
verify_token_home (err e) w h = absurd (let wrong = ok_same invalid home h in cc)
verify_token_home (ok token) w h =
    let (unspent, run) =
      second_way _ (pure used) _ w (λ k. absurd (let wrong = ok_same used home k in cc)) h in
    let (for_login, run') =
      second_way _ (pure invalid) (check_age token) w
        (λ k. absurd (let wrong = ok_same invalid home k in cc)) (sym (ap (λ q. q.0) run) ∙ h) in
    let (young, spent) = check_age_home token w (sym (ap (λ q. q.0) (run ∙ run')) ∙ h) in
    (
      token,
      refl,
      (was_true _ unspent, was_true _ for_login),
      young,
      subst (λ u. IsSpentBy token w.db u.db) (sym (ap (λ q. q.1) (run ∙ run'))) spent,
    )

first_row_ok : (o : Option AuthToken) (t : AuthToken) → first_row o ≡ ok t → o ≡ some t
first_row_ok none t h = absurd (cc)
first_row_ok (some s) t h = ap some (ok_same s t h)

was_found :
    (hash : String) (w : World) (token : AuthToken)
    → (get_auth_token_by_hash hash w).0 ≡ ok token
    → first_where (token_with hash) (view w).tokens ≡ some token
unfolding get_auth_token_by_hash
was_found hash w token h = first_row_ok _ token (query_ok _ w token h)

module _ (crypto : Crypto) where
  -- A login link that leads to the page was stored with the hash of its text as the read connection
  -- sees it, was for signing in, and was neither consumed nor expired. It has started one session,
  -- of the user the token belongs to, and the token, which the database held as not consumed, is
  -- consumed after it, so that the link does not start another.
  pub handle_verify_token-IsSpentBy :
      (raw : String) (w : World)
      → (handle_verify_token crypto raw w).0 ≡ ok home
      → (token : AuthToken) × (first_where (token_with (sha256_hex crypto raw)) (view w).tokens
          ≡ some token)
        × IsGood token
        × (w.now ≤ token.expires_at)
        × IsSpentBy token w.db (handle_verify_token crypto raw w).1.db
  unfolding handle_verify_token pure attempt get_auth_token_by_hash query
  handle_verify_token-IsSpentBy raw w h =
      let (some_text, run) =
        second_way (is_empty raw) (pure invalid) _ w
          (λ k. absurd (let wrong = ok_same invalid home k in cc)) h in
      let (r, x, h1, p) =
        bind_rest (attempt (get_auth_token_by_hash (sha256_hex crypto raw))) verify_token w home
          (sym (ap (λ q. q.0) run) ∙ h) in
      let (token, found, good, young, spent) = verify_token_home r _ h1 in
      (
        token,
        was_found (sha256_hex crypto raw) w token
            (attempt_ok (get_auth_token_by_hash (sha256_hex crypto raw)) w r x ∙ found),
        good,
        young,
        subst (λ u. IsSpentBy token w.db u.db) (sym (ap (λ q. q.1) run ∙ p)) spent,
      )
