-- ===== src/Examples/Requests.antt =====
-- The theorems about the check of requests: with a hash and an encoding that are easy to compute.
use piecesoflife.Prelude.{
  ◌+◌, ◌≤◌, first_where, count_where, ℕ, zero, suc, ◌≡◌, refl, String, false, none, some, List, [],
  ◌∷◌, length,
}
use piecesoflife.Tokens.{
  Crypto, sha256_hex, hex_encode, is_empty, generate_signed_csrf_token, validate_signed_csrf_token,
}
use piecesoflife.Tokens.Csrf.{Request, Method, post, forwarded, csrf_middleware, kept_cookie}
use piecesoflife.Tokens.Signed.{IsSigned}
use piecesoflife.Tokens.Forgery.{cons_is_some, forwarded-IsSigned, echoed_token_accepted}
use piecesoflife.Store.Rows.{AuthToken, login}
use piecesoflife.Store.Exec.{ok, World, attempt, query, exec, get_now, get_hash, pure, raise, ◌>>=◌}
use piecesoflife.Store.Auth.{
  token_with, is_recent_attempt, insert_session, create_session, consume_row, consume_auth_token,
  get_auth_token_by_hash,
}
use piecesoflife.Store.Members.{get_user_by_id}
use piecesoflife.Tokens.Signin.{
  home, handle_verify_token, verify_token, check_age, consume_and_sign_in, after_consume, sign_in,
  create_session_and_set_cookie,
}
use piecesoflife.Tokens.Signin.Once.{IsGood, IsSpentBy, handle_verify_token-IsSpentBy}
use piecesoflife.Tokens.Magic.{request_magic_link}
use piecesoflife.Tokens.Magic.Alike.{answer_to, request_magic_link_alike}
use piecesoflife.Examples.Data.{due}

abbrev bytes : ℕ → ℕ → List ℕ
bytes zero b = []
bytes (suc n) b = b ∷ bytes n b

abbrev toy : Crypto
toy = record {
  sha256 = λ text. bytes 32 1;
  hmac_sha256 = λ key message. bytes 32 171;
  raw_url_encode = hex_encode;
}

toy_digest : (key message : String) → length (toy.hmac_sha256 key message) ≡ 32
toy_digest key message = refl

toy_encoding : (b : ℕ) (bs : List ℕ) → is_empty (toy.raw_url_encode (b ∷ bs)) ≡ false
toy_encoding b bs = cons_is_some _ _

abbrev first_visit : Request
first_visit = record { path = "/"; method = Method.get; cookie = none; header = "" }

abbrev signed : String
signed =
    "00000000000000000000000000000000.abababababababababababababababababababababababababababababababab"

abbrev answer : Request
answer = record { path = "/api/responses"; method = post; cookie = some signed; header = signed }

visit_kept :
    kept_cookie first_visit.cookie (csrf_middleware toy "secret" (bytes 16 0) first_visit)
    ≡ some signed
unfolding csrf_middleware generate_signed_csrf_token validate_signed_csrf_token
visit_kept = refl

answer_forwarded : (csrf_middleware toy "secret" (bytes 16 9) answer).reply ≡ forwarded
unfolding csrf_middleware generate_signed_csrf_token validate_signed_csrf_token
answer_forwarded = refl

echoed_token_accepted_example :
    csrf_middleware toy "secret" (bytes 16 9) answer
    ≡ record { set_cookie = none; reply = forwarded }
echoed_token_accepted_example =
    echoed_token_accepted toy toy_digest toy_encoding "secret" signed (bytes 16 0) (bytes 16 9)
      first_visit answer refl refl visit_kept refl refl

forwarded-IsSigned_example :
    IsSigned toy "secret" signed
    × (kept_cookie (some signed) (csrf_middleware toy "secret" (bytes 16 9) answer) ≡ some signed)
forwarded-IsSigned_example =
    forwarded-IsSigned toy "secret" (bytes 16 9) answer refl refl refl answer_forwarded

abbrev link_token : AuthToken
link_token = record {
  id = 1;
  user_id = 1;
  token_hash = sha256_hex toy "abc";
  token_type = login;
  expires_at = due.now + 60;
  consumed_at = none;
}

abbrev mailed : World
mailed = record due {
  db = record due.db { tokens = link_token ∷ [] };
  frozen = none;
  faults = [];
  hashes = "new" ∷ [];
}

link_leads_home : (handle_verify_token toy "abc" mailed).0 ≡ ok home
unfolding handle_verify_token verify_token check_age consume_and_sign_in after_consume sign_in
    create_session_and_set_cookie create_session insert_session consume_auth_token consume_row
    get_auth_token_by_hash get_user_by_id attempt query exec get_now get_hash pure raise ◌>>=◌
link_leads_home = refl

handle_verify_token-IsSpentBy_example :
    (token : AuthToken) × (first_where (token_with (sha256_hex toy "abc")) mailed.db.tokens
      ≡ some token)
    × IsGood token
    × (mailed.now ≤ token.expires_at)
    × IsSpentBy token mailed.db (handle_verify_token toy "abc" mailed).1.db
handle_verify_token-IsSpentBy_example =
    handle_verify_token-IsSpentBy toy "abc" mailed link_leads_home

request_magic_link_alike_example :
    (request_magic_link toy (λ text. text) "ana@example.org" mailed).0
    ≡ ok (
        answer_to "ana@example.org" (
          count_where
            (is_recent_attempt (sha256_hex toy "ana@example.org") mailed.now)
            mailed.db.login_attempts))
request_magic_link_alike_example =
    request_magic_link_alike toy (λ text. text) "ana@example.org" mailed
      record { calm = refl; live = refl; hash = "new"; hashes = []; next = refl; is_new = refl }
