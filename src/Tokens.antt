-- ===== src/Tokens.antt =====
-- internal/auth: random tokens and signed tokens against forged requests. `Csrf` has the check of
-- the server's requests that uses them, `Signed` what a signed token looks like, and `Forgery` which
-- requests get through. `Signin` has the links in emails, and `Magic` how they are asked for.
pub mod Csrf
pub mod Signed
pub mod Forgery
pub mod Signin
pub mod Magic
use Prim.Native.Char.{Char, code, nul}
use text.Mathlib.Text.{◌==◌ as same_text}
use piecesoflife.Prelude.{
  ℕ, zero, suc, ◌/◌, ◌%◌, String, Bool, true, false, not, ◌&&◌, Option, none, some, List, [], ◌∷◌,
  ◌==◌, if◌then◌else◌,
}
use Prim.Native.String.{◌++◌}

-- Go's crypto/sha256, crypto/hmac and encoding/base64. A list of numbers stands for bytes.
pub record Crypto : Type 0 where
  pub sha256 : String → List ℕ
  pub hmac_sha256 : String → String → List ℕ
  pub raw_url_encode : List ℕ → String

abbrev pub char_of : String → ℕ → Char
char_of String.[] n = nul
char_of (String.◌∷◌ c s) zero = c
char_of (String.◌∷◌ c s) (suc n) = char_of s n

-- The table of encoding/hex.
abbrev pub hex_table : String
hex_table = "0123456789abcdef"

abbrev pub hex_digit : ℕ → Char
hex_digit n = char_of hex_table n

-- hex.EncodeToString
abbrev pub hex_encode : List ℕ → String
hex_encode [] = ""
hex_encode (b ∷ bs) =
    String.◌∷◌ (hex_digit (b / 16)) (String.◌∷◌ (hex_digit (b % 16)) (hex_encode bs))

abbrev pub is_dot : Char → Bool
is_dot c = code c == b'.'

abbrev pub with_first : Char → Option (String × String) → Option (String × String)
with_first c none = none
with_first c (some (s, t)) = some (String.◌∷◌ c s, t)

-- strings.IndexByte with a dot, and what stands before and after it.
abbrev pub cut_at_dot : String → Option (String × String)
cut_at_dot String.[] = none
cut_at_dot (String.◌∷◌ c s) =
    let rest = cut_at_dot s in if is_dot c then some ("", s) else with_first c rest

abbrev pub is_empty : String → Bool
is_empty s = same_text s ""

-- From the bytes that the random source gives.
abbrev pub generate_random_string : List ℕ → String
generate_random_string bytes = hex_encode bytes

module _ (crypto : Crypto) where
  abbrev pub sha256_hex : String → String
  sha256_hex s = hex_encode (crypto.sha256 s)

  -- The raw token and its hash, from the bytes that the random source gives, unless it fails.
  abbrev pub generate_random_token : Option (List ℕ) → Option (String × String)
  generate_random_token none = none
  generate_random_token (some bytes) = let raw = hex_encode bytes in some (raw, sha256_hex raw)

  abbrev pub sign_csrf_nonce : String → String → String
  sign_csrf_nonce secret nonce = crypto.raw_url_encode (crypto.hmac_sha256 secret nonce)

  -- `bytes` are the 16 random bytes.
  unfoldable pub generate_signed_csrf_token : String → List ℕ → String
  generate_signed_csrf_token secret bytes =
      let nonce = generate_random_string bytes in nonce ++ "." ++ sign_csrf_nonce secret nonce

  abbrev pub is_signed_pair : String → Option (String × String) → Bool
  is_signed_pair secret none = false
  is_signed_pair secret (some (nonce, sig)) =
      not (is_empty nonce) && not (is_empty sig) && same_text sig (sign_csrf_nonce secret nonce)

  unfoldable pub validate_signed_csrf_token : String → String → Bool
  validate_signed_csrf_token secret token = is_signed_pair secret (cut_at_dot token)
