-- ===== src/Tokens/Csrf.antt =====
-- internal/server/middleware.go: the check of state-changing requests against forged ones.
use text.Mathlib.Text.{◌==◌ as same_text}
use piecesoflife.Prelude.{
  ℕ, String, Bool, true, false, not, ◌&&◌, ◌||◌, Option, none, some, List, if◌then◌else◌,
}
use piecesoflife.Tokens.{Crypto, is_empty, generate_signed_csrf_token, validate_signed_csrf_token}

pub data Method : Type 0 where
  get head options post patch put delete : Method

-- What the check reads of a request. `header` is X-CSRF-Token, "" without one.
pub record Request : Type 0 where
  pub path : String
  pub method : Method
  pub cookie : Option String
  pub header : String

pub data Reply : Type 0 where
  forwarded forbidden : Reply

-- The cookie that the response sets, if it sets one, and whether the next handler ran.
pub record Checked : Type 0 where
  pub set_cookie : Option String
  pub reply : Reply

abbrev pub is_exempt : Request → Bool
is_exempt r =
    same_text r.path "/health" || same_text r.path "/auth/verify" || same_text r.path "/login"

abbrev pub changes_state : Method → Bool
changes_state post = true
changes_state patch = true
changes_state put = true
changes_state delete = true
changes_state _ = false

abbrev pub header_fails : Request → String → Bool
header_fails r token = is_empty r.header || not (same_text r.header token)

abbrev pub reply_with : Request → String → Reply
reply_with r token = if changes_state r.method && header_fails r token then forbidden else forwarded

module _ (crypto : Crypto) where
  -- `fresh` are the random bytes of a new token.
  abbrev pub check_cookie : String → List ℕ → Request → Option String → Checked
  check_cookie secret fresh r none =
      let token = generate_signed_csrf_token crypto secret fresh in
      record { set_cookie = some token; reply = reply_with r token }
  check_cookie secret fresh r (some value) =
      let token = generate_signed_csrf_token crypto secret fresh in
      if validate_signed_csrf_token crypto secret value
      then record { set_cookie = none; reply = reply_with r value }
      else record { set_cookie = some token; reply = reply_with r token }

  unfoldable pub csrf_middleware : String → List ℕ → Request → Checked
  csrf_middleware secret fresh r =
      if is_exempt r
      then record { set_cookie = none; reply = forwarded }
      else check_cookie secret fresh r r.cookie

-- What the client holds after a response.
abbrev pub kept_cookie : Option String → Checked → Option String
kept_cookie old c = elim c.set_cookie [ none ↦ old | some token ↦ some token ]
