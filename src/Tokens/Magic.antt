-- ===== src/Tokens/Magic.antt =====
-- internal/server/auth.go: asking for a login link by email.
pub mod Alike
use Prim.Native.Char.{Char, code}
use piecesoflife.Prelude.{ℕ, String, Bool, true, false, not, ◌||◌, ◌==◌, if◌then◌else◌, leb}
use piecesoflife.Store.Tables.{User}
use piecesoflife.Store.Exec.{Result, ok, err, Exec, pure, attempt, ◌>>=◌, ◌>>◌}
use piecesoflife.Store.Auth.{record_login_attempt, count_recent_login_attempts}
use piecesoflife.Store.Members.{get_user_by_email}
use piecesoflife.Tokens.{Crypto, is_empty, sha256_hex}
use piecesoflife.Tokens.Signin.{new_login_token}

pub data MagicLinkOutcome : Type 0 where
  magic_link_sent magic_link_invalid_email magic_link_rate_limited : MagicLinkOutcome

abbrev pub has_at_sign : String → Bool
has_at_sign String.[] = false
has_at_sign (String.◌∷◌ c s) = code c == b'@' || has_at_sign s

abbrev pub is_address : String → Bool
is_address email = not (is_empty email || not (has_at_sign email))

-- The email with the link changes no table.
unfoldable pub link_for : Result User → Exec MagicLinkOutcome
link_for (err e) = pure magic_link_sent
link_for (ok user) =
    if user.is_active
    then (do new_login_token user.id; pure magic_link_sent)
    else pure magic_link_sent

unfoldable pub record_and_link : String → String → Exec MagicLinkOutcome
record_and_link email email_hash = do
  record_login_attempt email_hash
  user ← attempt (get_user_by_email email)
  link_for user

unfoldable pub limit_or_link : String → String → ℕ → Exec MagicLinkOutcome
limit_or_link email email_hash attempts =
    if leb 3 attempts then pure magic_link_rate_limited else record_and_link email email_hash

-- `normalise` is strings.ToLower and strings.TrimSpace.
module _ (crypto : Crypto) (normalise : String → String) where
  unfoldable pub request_magic_link : String → Exec MagicLinkOutcome
  request_magic_link raw =
      let email = normalise raw in
      if not (is_address email) then pure magic_link_invalid_email else (do
        attempts ← count_recent_login_attempts (sha256_hex crypto email)
        limit_or_link email (sha256_hex crypto email) attempts)
