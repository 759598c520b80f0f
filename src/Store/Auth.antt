-- ===== src/Store/Auth.antt =====
-- internal/store/auth.go: magic links, sessions and the login rate window.
pub mod Once
use text.Mathlib.Text.{◌==◌ as same_text}
use piecesoflife.Prelude.{
  ℕ, suc, ◌-◌, String, Bool, true, not, ◌&&◌, ◌||◌, Option, none, some, [], ◌∷◌, ◌++◌, ◌==◌, ltb,
  if◌then◌else◌, is_none, delete_where, update_where, exists_where, count_where, first_where,
}
use piecesoflife.Store.Rows.{Db, Group, AuthToken, TokenType, Session, LoginAttempt}
use piecesoflife.Store.Tables.{User}
use piecesoflife.Store.Exec.{
  Result, ok, err, Exec, unique_violation, foreign_key_violation, token_already_consumed, pure,
  raise, query, exec, get_now, ◌>>=◌, ◌>>◌,
}
use piecesoflife.Store.Sql.{first_row}

abbrev pub user_exists : ℕ → Db → Bool
user_exists id db = exists_where (λ (u : User). u.id == id) db.users

abbrev pub token_with : String → AuthToken → Bool
token_with hash t = same_text t.token_hash hash

abbrev pub new_token : Db → ℕ → String → TokenType → ℕ → AuthToken
new_token db user_id token_hash token_type expires_at = record {
  id = suc db.token_seq;
  user_id = user_id;
  token_hash = token_hash;
  token_type = token_type;
  expires_at = expires_at;
  consumed_at = none;
}

unfoldable pub insert_token : ℕ → String → TokenType → ℕ → Db → Result (Unit {0} × Db)
insert_token user_id token_hash token_type expires_at db =
    if exists_where (token_with token_hash) db.tokens
    then err unique_violation
    else if user_exists user_id db
    then ok (
      tt,
      record db {
        tokens = db.tokens ++ new_token db user_id token_hash token_type expires_at ∷ [];
        token_seq = suc db.token_seq;
      },
    )
    else err foreign_key_violation

unfoldable pub create_auth_token : ℕ → String → TokenType → ℕ → Exec (Unit {0})
create_auth_token user_id token_hash token_type expires_at =
    exec (insert_token user_id token_hash token_type expires_at)

unfoldable pub get_auth_token_by_hash : String → Exec AuthToken
get_auth_token_by_hash token_hash =
    query (λ db. first_row (first_where (token_with token_hash) db.tokens))

abbrev pub is_unconsumed : ℕ → AuthToken → Bool
is_unconsumed id t = t.id == id && is_none t.consumed_at

abbrev pub consume : ℕ → AuthToken → AuthToken
consume now t = record t { consumed_at = some now }

unfoldable pub consume_row : ℕ → ℕ → Db → Result (ℕ × Db)
consume_row id now db = ok (
  count_where (is_unconsumed id) db.tokens,
  record db { tokens = update_where (is_unconsumed id) (consume now) db.tokens },
)

unfoldable pub consume_auth_token : ℕ → Exec (Unit {0})
consume_auth_token id = do
  now ← get_now
  n ← exec (consume_row id now)
  if n == 0 then raise token_already_consumed else pure tt

abbrev pub is_spent : ℕ → AuthToken → Bool
is_spent now t = not (is_none t.consumed_at) || ltb t.expires_at now

unfoldable pub cleanup_expired_tokens : Exec ℕ
cleanup_expired_tokens = do
  now ← get_now
  u ← exec (λ db. ok (
    tt {0},
    record db {
      login_attempts =
          delete_where (λ (a : LoginAttempt). ltb a.created_at (now - 86400)) db.login_attempts;
    },
  ))
  exec (λ db. ok (
    count_where (is_spent now) db.tokens,
    record db { tokens = delete_where (is_spent now) db.tokens },
  ))

abbrev pub session_with : String → Session → Bool
session_with hash s = same_text s.token_hash hash

abbrev pub group_exists : Option ℕ → Db → Bool
group_exists none db = true
group_exists (some id) db = exists_where (λ (g : Group). g.id == id) db.groups

unfoldable pub insert_session : ℕ → String → ℕ → Option ℕ → Db → Result (Unit {0} × Db)
insert_session user_id token_hash expires_at group_id db =
    if exists_where (session_with token_hash) db.sessions
    then err unique_violation
    else if user_exists user_id db && group_exists group_id db
    then ok (
      tt,
      record db {
        sessions =
            db.sessions
            ++ record {
              id = suc db.session_seq;
              user_id = user_id;
              group_id = group_id;
              token_hash = token_hash;
              expires_at = expires_at;
            }
              ∷ [];
        session_seq = suc db.session_seq;
      },
    )
    else err foreign_key_violation

unfoldable pub create_session : ℕ → String → ℕ → Option ℕ → Exec (Unit {0})
create_session user_id token_hash expires_at group_id =
    exec (insert_session user_id token_hash expires_at group_id)

unfoldable pub get_session_by_hash : String → Exec Session
get_session_by_hash token_hash =
    query (λ db. first_row (first_where (session_with token_hash) db.sessions))

abbrev pub is_session : ℕ → Session → Bool
is_session id s = s.id == id

-- The foreign key is looked at only where a row is updated.
unfoldable pub move_session : ℕ → ℕ → Db → Result (Unit {0} × Db)
move_session id group_id db =
    if exists_where (is_session id) db.sessions && not (group_exists (some group_id) db)
    then err foreign_key_violation
    else ok (
      tt,
      record db {
        sessions =
            update_where (is_session id) (λ s. record s { group_id = some group_id }) db.sessions;
      },
    )

unfoldable pub set_session_group : ℕ → ℕ → Exec (Unit {0})
set_session_group id group_id = exec (move_session id group_id)

unfoldable pub delete_session : ℕ → Exec (Unit {0})
delete_session id =
    exec (λ db. ok (tt, record db { sessions = delete_where (is_session id) db.sessions }))

abbrev pub is_expired_session : ℕ → Session → Bool
is_expired_session now s = ltb s.expires_at now

unfoldable pub cleanup_expired_sessions : Exec ℕ
cleanup_expired_sessions = do
  now ← get_now
  exec (λ db. ok (
    count_where (is_expired_session now) db.sessions,
    record db { sessions = delete_where (is_expired_session now) db.sessions },
  ))

unfoldable pub record_login_attempt : String → Exec (Unit {0})
record_login_attempt email_hash = do
  now ← get_now
  exec (λ db. ok (
    tt,
    record db {
      login_attempts =
          db.login_attempts ++ record { email_hash = email_hash; created_at = now } ∷ [];
    },
  ))

abbrev pub is_recent_attempt : String → ℕ → LoginAttempt → Bool
is_recent_attempt email_hash now a =
    same_text a.email_hash email_hash && ltb (now - 3600) a.created_at

unfoldable pub count_recent_login_attempts : String → Exec ℕ
count_recent_login_attempts email_hash = do
  now ← get_now
  query (λ db. ok (count_where (is_recent_attempt email_hash now) db.login_attempts))
