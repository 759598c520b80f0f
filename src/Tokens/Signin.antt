-- ===== src/Tokens/Signin.antt =====
-- internal/server/auth.go and middleware.go: the links in emails, and the sessions that they start.
pub mod Once
use piecesoflife.Prelude.{
  ℕ, ◌+◌, String, Bool, true, false, not, ◌&&◌, Option, none, some, if◌then◌else◌, ltb, leb,
  is_none,
}
use piecesoflife.Store.Rows.{AuthToken, TokenType, login, email_cta, Session}
use piecesoflife.Store.Tables.{User}
use piecesoflife.Store.Exec.{
  Err, Result, ok, err, token_already_consumed, Exec, pure, attempt, get_now, get_hash, ◌>>=◌, ◌>>◌,
}
use piecesoflife.Store.Auth.{
  create_auth_token, get_auth_token_by_hash, consume_auth_token, create_session,
  get_session_by_hash, delete_session, record_login_attempt, count_recent_login_attempts,
}
use piecesoflife.Store.Members.{get_user_by_id, get_user_by_email}
use piecesoflife.Tokens.{Crypto, is_empty, sha256_hex}

-- Where a link leads: to the page, to the login form with a reason, or to an error page. `renewed`
-- is the form after a link that is too old.
pub data Landing : Type 0 where
  home invalid used expired renewed failed : Landing

abbrev pub last_group_of : Result User → Option ℕ
last_group_of (ok user) = user.last_group_id
last_group_of (err e) = none

-- The raw token goes into the cookie, its hash into the table.
unfoldable pub create_session_and_set_cookie : ℕ → Exec (Unit {0})
create_session_and_set_cookie user_id = do
  hash ← get_hash
  now ← get_now
  user ← attempt (get_user_by_id user_id)
  create_session user_id hash (now + 2592000) (last_group_of user)

abbrev pub landing_of : Result (Unit {0}) → Landing
landing_of (ok u) = home
landing_of (err e) = failed

unfoldable pub sign_in : ℕ → Exec Landing
sign_in user_id = do r ← attempt (create_session_and_set_cookie user_id); pure (landing_of r)

abbrev pub is_already_consumed : Err → Bool
is_already_consumed token_already_consumed = true
is_already_consumed e = false

unfoldable pub after_consume : ℕ → Result (Unit {0}) → Exec Landing
after_consume user_id (ok u) = sign_in user_id
after_consume user_id (err e) = pure (if is_already_consumed e then used else failed)

-- A token that another click has consumed starts no session.
unfoldable pub consume_and_sign_in : AuthToken → Exec Landing
consume_and_sign_in token = do
  r ← attempt (consume_auth_token token.id)
  after_consume token.user_id r

unfoldable pub new_login_token : ℕ → Exec (Unit {0})
new_login_token user_id = do
  hash ← get_hash
  now ← get_now
  create_auth_token user_id hash login (now + 1800)

-- The email with the new link changes no table.
unfoldable pub renew : AuthToken → Result User → Exec Landing
renew token (err e) = pure expired
renew token (ok user) = do
  consumed ← attempt (consume_auth_token token.id)
  created ← attempt (new_login_token user.id)
  pure renewed

abbrev pub is_login : TokenType → Bool
is_login login = true
is_login email_cta = false

unfoldable pub check_age : AuthToken → Exec Landing
check_age token = do
  now ← get_now
  if ltb token.expires_at now
      then (do user ← attempt (get_user_by_id token.user_id); renew token user)
      else consume_and_sign_in token

unfoldable pub verify_token : Result AuthToken → Exec Landing
verify_token (err e) = pure invalid
verify_token (ok token) =
    if not (is_none token.consumed_at)
    then pure used
    else if not (is_login token.token_type)
    then pure invalid
    else check_age token

-- An email_cta token stays good until it expires; a login token is consumed.
unfoldable pub exchange_unexpired : AuthToken → Exec Landing
exchange_unexpired token =
    if not (is_login token.token_type)
    then sign_in token.user_id
    else if not (is_none token.consumed_at)
    then pure used
    else consume_and_sign_in token

abbrev pub expired_landing : Result User → Landing
expired_landing (ok user) = renewed
expired_landing (err e) = expired

unfoldable pub exchange_token : Result AuthToken → Exec Landing
exchange_token (err e) = pure invalid
exchange_token (ok token) = do
  now ← get_now
  if ltb token.expires_at now
      then (do user ← attempt (get_user_by_id token.user_id); pure (expired_landing user))
      else exchange_unexpired token

abbrev pub is_active_user : Result User → Bool
is_active_user (ok user) = user.is_active
is_active_user (err e) = false

unfoldable pub is_live_session : Result Session → Exec Bool
is_live_session (err e) = pure false
is_live_session (ok session) = do
  now ← get_now
  if ltb session.expires_at now
      then pure false
      else (do user ← attempt (get_user_by_id session.user_id); pure (is_active_user user))

unfoldable pub delete_found_session : Result Session → Exec (Unit {0})
delete_found_session (err e) = pure tt
delete_found_session (ok session) = do r ← attempt (delete_session session.id); pure tt

module _ (crypto : Crypto) where
  unfoldable pub handle_verify_token : String → Exec Landing
  handle_verify_token raw =
      if is_empty raw
      then pure invalid
      else (do token ← attempt (get_auth_token_by_hash (sha256_hex crypto raw)); verify_token token)

  -- The argument is the value of the session cookie, if there is one.
  unfoldable pub has_valid_session : Option String → Exec Bool
  has_valid_session none = pure false
  has_valid_session (some value) = do
    session ← attempt (get_session_by_hash (sha256_hex crypto value))
    is_live_session session

  unfoldable pub handle_auth_param : Option String → String → Exec Landing
  handle_auth_param cookie raw = do
    signed_in ← has_valid_session cookie
    if signed_in then pure home else (do
      token ← attempt (get_auth_token_by_hash (sha256_hex crypto raw))
      exchange_token token)

  unfoldable pub handle_logout : Option String → Exec (Unit {0})
  handle_logout none = pure tt
  handle_logout (some value) = do
    session ← attempt (get_session_by_hash (sha256_hex crypto value))
    delete_found_session session
