-- ===== src/Tokens/Signed.antt =====
-- Which tokens the check of the requests accepts.
use Prim.Native.Char.{Char, code}
use Prim.Native.String.{◌++◌}
use Prim.Native.String.append
use Prim.Native.Nat.{compare, Ordering}
use text.Mathlib.TextEquality.{eq_iff, codes_equal}
use piecesoflife.Prelude.{
  ℕ, zero, suc, ◌/◌, ◌%◌, ◌≡◌, ◌==◌, refl, sym, ap, ◌∙◌, String, Bool, true, false, ◌||◌, Option,
  none, some, List, [], ◌∷◌, inl, inr, Bool-cases, Option-cases, arith,
}
use piecesoflife.Tokens.{
  Crypto, char_of, hex_table, hex_encode, is_dot, with_first, cut_at_dot, is_empty, sign_csrf_nonce,
  is_signed_pair, validate_signed_csrf_token,
}

abbrev has_dot : String → Bool
has_dot String.[] = false
has_dot (String.◌∷◌ c s) = is_dot c || has_dot s

or_left : (a b : Bool) → (a || b) ≡ false → a ≡ false
or_left a b h = ground arith

or_right : (a b : Bool) → (a || b) ≡ false → b ≡ false
or_right a b h = ground arith

or_intro : (a b : Bool) → a ≡ false → b ≡ false → (a || b) ≡ false
or_intro a b h k = ground arith

cut_cons :
    (c : Char) (s t u : String)
    → is_dot c ≡ false
    → cut_at_dot u ≡ some (s, t)
    → cut_at_dot (String.◌∷◌ c u) ≡ some (String.◌∷◌ c s, t)
cut_cons c s t u h k = rw (h, k) refl

char_of_no_dot : (s : String) (n : ℕ) → has_dot s ≡ false → is_dot (char_of s n) ≡ false
char_of_no_dot String.[] n h = refl
char_of_no_dot (String.◌∷◌ c s) zero h = ground arith
char_of_no_dot (String.◌∷◌ c s) (suc n) h = char_of_no_dot s n (or_right (is_dot c) (has_dot s) h)

pub hex_no_dot : (bs : List ℕ) → has_dot (hex_encode bs) ≡ false
hex_no_dot [] = refl
hex_no_dot (b ∷ bs) =
    or_intro _ _ (char_of_no_dot hex_table (b / 16) refl)
      (or_intro _ _ (char_of_no_dot hex_table (b % 16) refl) (hex_no_dot bs))

abbrev dot : Char
dot = "."

dotted : (t : String) → "." ++ t ≡ String.◌∷◌ dot t
dotted t = append.cons dot "" t ∙ ap (String.◌∷◌ dot) (append.nil t)

-- A text before the first dot, and the rest.
joined_nil : (t : String) → "" ++ "." ++ t ≡ String.◌∷◌ dot t
joined_nil t = append.nil ("." ++ t) ∙ dotted t

pub cut_at_first : (s t : String) → has_dot s ≡ false → cut_at_dot (s ++ "." ++ t) ≡ some (s, t)
cut_at_first String.[] t h = ap cut_at_dot (joined_nil t)
cut_at_first (String.◌∷◌ c s) t h =
    ap cut_at_dot (append.cons c s ("." ++ t))
    ∙ cut_cons c s t _ (or_left (is_dot c) (has_dot s) h)
        (cut_at_first s t (or_right (is_dot c) (has_dot s) h))

equal_codes : (n : ℕ) → (n == b'.') ≡ true → compare n b'.' ≡ Ordering.eq
equal_codes n h = ground arith

same_as_dot : (c : Char) → is_dot c ≡ true → c ≡ dot
same_as_dot c h = codes_equal c dot (equal_codes (code c) h)

cut_dot : (c : Char) (u : String) → is_dot c ≡ true → cut_at_dot (String.◌∷◌ c u) ≡ some ("", u)
cut_dot c u h = rw h refl

cut_other :
    (c : Char) (u : String)
    → is_dot c ≡ false
    → cut_at_dot (String.◌∷◌ c u) ≡ with_first c (cut_at_dot u)
cut_other c u h = rw h refl

abbrev joined : String × String → String
joined p = p.0 ++ "." ++ p.1

some_same {ℓ} : {A : Type ℓ} (a b : A) → some a ≡ some b → a ≡ b
some_same a b h = cc

cut_parts : (u : String) (p : String × String) → cut_at_dot u ≡ some p → u ≡ joined p
cut_parts String.[] p h = absurd (let wrong : none ≡ some p = h in cc)
cut_parts (String.◌∷◌ c u) p h = elim (Bool-cases (is_dot c)) [
  | inl is_one ↦
      ap (λ d. String.◌∷◌ d u) (same_as_dot c is_one)
      ∙ sym (joined_nil u)
      ∙ ap joined (some_same ("", u) p (sym (cut_dot c u is_one) ∙ h))
  | inr other ↦ elim (Option-cases (cut_at_dot u)) [
    | inl none_there ↦ absurd (
        let wrong : none ≡ some p = sym (cut_other c u other ∙ ap (with_first c) none_there) ∙ h in
        cc)
    | inr ((s, t), found) ↦
        ap (String.◌∷◌ c) (cut_parts u (s, t) found)
        ∙ sym (append.cons c s ("." ++ t))
        ∙ ap joined (
            some_same (String.◌∷◌ c s, t) p
              (sym (cut_other c u other ∙ ap (with_first c) found) ∙ h))
  ]
]

module _ (crypto : Crypto) where
  -- A token that the server has signed, for some nonce.
  pub record IsSigned (secret token : String) : Type 0 where
    pub nonce : String
    pub is_named : is_empty nonce ≡ false
    pub is_token : token ≡ nonce ++ "." ++ sign_csrf_nonce crypto secret nonce

  signed_pair :
      (secret : String) (p : Option (String × String))
      → is_signed_pair crypto secret p ≡ true
      → (nonce : String) × (is_empty nonce ≡ false)
        × (p ≡ some (nonce, sign_csrf_nonce crypto secret nonce))
  signed_pair secret none h = absurd (cc)
  signed_pair secret (some (nonce, sig)) h =
      (nonce, ground arith, ap (λ s. some (nonce, s)) ((eq_iff _ _).0 (ground arith)))

  pub validate-IsSigned :
      (secret token : String)
      → validate_signed_csrf_token crypto secret token ≡ true
      → IsSigned secret token
  unfolding validate_signed_csrf_token
  validate-IsSigned secret token h =
      let (nonce, named, parts) = signed_pair secret (cut_at_dot token) h in
      record { nonce = nonce; is_named = named; is_token = cut_parts token _ parts }
