-- ===== src/Tokens/Forgery.antt =====
-- internal/server/middleware.go: which state-changing requests the check lets through.
use Prim.Native.Char.{Char}
use Prim.Native.String.compare
use text.Mathlib.Text.{◌==◌ as same_text, is_eq}
use text.Mathlib.TextEquality.{eq_iff}
use text.Mathlib.TextPositions.{eq_refl}
use piecesoflife.Prelude.{
  ℕ, ◌≡◌, refl, sym, ap, subst, ◌∙◌, String, Bool, true, false, not, ◌&&◌, ◌||◌, Option, none, some,
  List, [], ◌∷◌, if◌then◌else◌, length, inl, inr, Bool-cases, arith,
}
use piecesoflife.Tokens.{
  Crypto, hex_encode, is_empty, sign_csrf_nonce, is_signed_pair, generate_signed_csrf_token,
  validate_signed_csrf_token,
}
use piecesoflife.Tokens.Csrf.{
  Request, forwarded, forbidden, is_exempt, changes_state, reply_with, check_cookie,
  csrf_middleware, kept_cookie,
}
use piecesoflife.Tokens.Signed.{IsSigned, hex_no_dot, cut_at_first, validate-IsSigned}

pub cons_is_some : (c : Char) (s : String) → is_empty (String.◌∷◌ c s) ≡ false
cons_is_some c s = ap is_eq (compare.cons-nil c s)

hex_is_some : (bs : List ℕ) → length bs ≡ 16 → is_empty (hex_encode bs) ≡ false
hex_is_some [] h = absurd (let wrong : 0 ≡ 16 = h in cc)
hex_is_some (b ∷ bs) h = cons_is_some _ _

let_through :
    (writes no_header same : Bool)
    → writes ≡ true
    → (if writes && (no_header || not same) then forbidden else forwarded) ≡ forwarded
    → same ≡ true
let_through writes no_header same h k = ground arith

lets_through :
    (writes no_header same : Bool)
    → no_header ≡ false
    → same ≡ true
    → (if writes && (no_header || not same) then forbidden else forwarded) ≡ forwarded
lets_through writes no_header same h k = ground arith

all_true : (a b c : Bool) → a ≡ false → b ≡ false → c ≡ true → (not a && not b && c) ≡ true
all_true a b c h k l = ground arith

module _ (crypto : Crypto) where
  generate-IsSigned :
      (secret : String) (bytes : List ℕ)
      → length bytes ≡ 16
      → IsSigned crypto secret (generate_signed_csrf_token crypto secret bytes)
  unfolding generate_signed_csrf_token
  generate-IsSigned secret bytes h = record {
    nonce = hex_encode bytes;
    is_named = hex_is_some bytes h;
    is_token = refl;
  }

  passed_header :
      (r : Request) (token : String)
      → changes_state r.method ≡ true
      → reply_with r token ≡ forwarded
      → r.header ≡ token
  passed_header r token h k =
      (eq_iff r.header token).0
        (let_through (changes_state r.method) (is_empty r.header) (same_text r.header token) h k)

  -- What the client holds after the check of a cookie, and what the check goes by.
  check_cookie_cases :
      (P : String → Type 0) (secret : String) (fresh : List ℕ) (r : Request)
      (cookie : Option String)
      → P (generate_signed_csrf_token crypto secret fresh)
      → ((value : String) → validate_signed_csrf_token crypto secret value ≡ true → P value)
      → (token : String) × P token
        × (kept_cookie cookie (check_cookie crypto secret fresh r cookie) ≡ some token)
        × ((check_cookie crypto secret fresh r cookie).reply ≡ reply_with r token)
  check_cookie_cases P secret fresh r none h k = (_, h, refl, refl)
  check_cookie_cases P secret fresh r (some value) h k =
      elim (Bool-cases (validate_signed_csrf_token crypto secret value)) [
        | inl valid ↦ (value, k value valid, rw valid refl, rw valid refl)
        | inr invalid ↦ (_, h, rw invalid refl, rw invalid refl)
      ]

  guarded_check :
      (secret : String) (fresh : List ℕ) (r : Request)
      → is_exempt r ≡ false
      → csrf_middleware crypto secret fresh r ≡ check_cookie crypto secret fresh r r.cookie
  unfolding csrf_middleware
  guarded_check secret fresh r h = rw h refl

  -- A request that changes state and gets through has a token in its header that the server has
  -- signed with its secret, the one that the client holds as a cookie after it. The path is not one
  -- of the three exempt ones, and a new token has 16 random bytes.
  pub forwarded-IsSigned :
      (secret : String) (fresh : List ℕ) (r : Request)
      → length fresh ≡ 16
      → is_exempt r ≡ false
      → changes_state r.method ≡ true
      → (csrf_middleware crypto secret fresh r).reply ≡ forwarded
      → IsSigned crypto secret r.header
        × (kept_cookie r.cookie (csrf_middleware crypto secret fresh r) ≡ some r.header)
  forwarded-IsSigned secret fresh r h guarded writes passed =
      let run = guarded_check secret fresh r guarded in
      let (token, signed, kept, decided) =
        check_cookie_cases (IsSigned crypto secret) secret fresh r r.cookie
          (generate-IsSigned secret fresh h) (validate-IsSigned crypto secret) in
      let same : r.header ≡ token =
        passed_header r token writes (sym decided ∙ sym (ap (λ c. c.reply) run) ∙ passed) in
      (
        subst (IsSigned crypto secret) (sym same) signed,
        ap (kept_cookie r.cookie) run ∙ kept ∙ ap some (sym same),
      )

  -- The hash has 32 bytes, and the encoding of a byte or more has a character or more.
  module _ (digest_length : (key message : String) → length (crypto.hmac_sha256 key message) ≡ 32)
      (encoding_some : (b : ℕ) (bs : List ℕ)
        → is_empty (crypto.raw_url_encode (b ∷ bs)) ≡ false) where
    encoded_some : (bs : List ℕ) → length bs ≡ 32 → is_empty (crypto.raw_url_encode bs) ≡ false
    encoded_some [] h = absurd (let wrong : 0 ≡ 32 = h in cc)
    encoded_some (b ∷ bs) h = encoding_some b bs

    generate_valid :
        (secret : String) (bytes : List ℕ)
        → length bytes ≡ 16
        → validate_signed_csrf_token crypto secret (generate_signed_csrf_token crypto secret bytes)
          ≡ true
    unfolding generate_signed_csrf_token validate_signed_csrf_token
    generate_valid secret bytes h =
        ap (is_signed_pair crypto secret) (
          cut_at_first (hex_encode bytes) (sign_csrf_nonce crypto secret (hex_encode bytes))
            (hex_no_dot bytes))
        ∙ all_true _ _ _ (hex_is_some bytes h) (encoded_some _ (digest_length secret _)) (eq_refl _)

    valid_some :
        (secret token : String)
        → validate_signed_csrf_token crypto secret token ≡ true
        → is_empty token ≡ false
    unfolding validate_signed_csrf_token
    valid_some secret String.[] h = absurd (let wrong : false ≡ true = h in cc)
    valid_some secret (String.◌∷◌ c s) h = cons_is_some c s

    kept_as_is :
        (secret token : String) (fresh : List ℕ) (next : Request)
        → validate_signed_csrf_token crypto secret token ≡ true
        → check_cookie crypto secret fresh next (some token)
          ≡ record { set_cookie = none; reply = reply_with next token }
    kept_as_is secret token fresh next h = rw h refl

    echo_fits :
        (next : Request) (token : String)
        → is_empty token ≡ false
        → next.header ≡ token
        → reply_with next token ≡ forwarded
    echo_fits next token h sent =
        lets_through (changes_state next.method) (is_empty next.header)
          (same_text next.header token) (ap is_empty sent ∙ h) ((eq_iff next.header token).1 sent)

    echo_accepted :
        (secret token : String) (fresh : List ℕ) (next : Request)
        → validate_signed_csrf_token crypto secret token ≡ true
        → next.cookie ≡ some token
        → next.header ≡ token
        → csrf_middleware crypto secret fresh next ≡ record { set_cookie = none; reply = forwarded }
    unfolding csrf_middleware
    echo_accepted secret token fresh next h held sent = elim (Bool-cases (is_exempt next)) [
      | inl exempt ↦ rw exempt refl
      | inr guarded ↦
          guarded_check secret fresh next guarded
          ∙ ap (check_cookie crypto secret fresh next) held
          ∙ kept_as_is secret token fresh next h
          ∙ ap (λ p. record { set_cookie = none; reply = p })
              (echo_fits next token (valid_some secret token h) sent)
    ]

    -- Whatever cookie a client came with, once it has the answer to any request, its next request
    -- that sends its cookie and echoes it in the header gets through, with no new cookie: the check
    -- accepts the tokens that it makes. The first path is not an exempt one, and a new token has 16
    -- random bytes.
    pub echoed_token_accepted :
        (secret token : String) (first second : List ℕ) (r next : Request)
        → length first ≡ 16
        → is_exempt r ≡ false
        → kept_cookie r.cookie (csrf_middleware crypto secret first r) ≡ some token
        → next.cookie ≡ some token
        → next.header ≡ token
        → csrf_middleware crypto secret second next
          ≡ record { set_cookie = none; reply = forwarded }
    echoed_token_accepted secret token first second r next h guarded kept held sent =
        let (made, valid, left, decided) =
          check_cookie_cases (λ t. validate_signed_csrf_token crypto secret t ≡ true) secret first r
            r.cookie (generate_valid secret first h) (λ v k. k) in
        let same : some made ≡ some token =
          sym left
          ∙ sym (ap (kept_cookie r.cookie) (guarded_check secret first r guarded))
          ∙ kept in
        let made_it : made ≡ token = cc same in
        echo_accepted secret token second next
          (subst (λ t. validate_signed_csrf_token crypto secret t ≡ true) made_it valid) held sent
