-- ===== src/Tokens/Magic/Alike.antt =====
-- internal/server/auth.go: what the answer to a request for a login link gives away.
use piecesoflife.Prelude.{
  ℕ, ◌≡◌, refl, sym, ap, subst, ◌∙◌, String, Bool, true, false, not, ◌||◌, Option, none, some, List,
  [], ◌∷◌, arith, if◌then◌else◌, leb, ◌==◌, ==_refl, count_where, first_where, exists_where,
  Bool-cases, inl, inr,
}
use piecesoflife.Store.Tables.{User}
use piecesoflife.Store.Exec.{
  Result, ok, World, tick, view, next_fault, later_faults, after, pure, query, exec, attempt,
  get_now, get_hash, ◌>>=◌,
}
use piecesoflife.Store.Sql.{first_row}
use piecesoflife.Store.Auth.{
  user_exists, token_with, insert_token, create_auth_token, is_recent_attempt, record_login_attempt,
  count_recent_login_attempts,
}
use piecesoflife.Store.Members.{has_email, get_user_by_email}
use piecesoflife.Tokens.{Crypto, sha256_hex}
use piecesoflife.Tokens.Signin.{new_login_token}
use piecesoflife.Tokens.Magic.{
  MagicLinkOutcome, magic_link_sent, magic_link_invalid_email, magic_link_rate_limited, is_address,
  link_for, record_and_link, limit_or_link, request_magic_link,
}

some_same {ℓ} : {A : Type ℓ} (a b : A) → some a ≡ some b → a ≡ b
some_same a b h = cc

or_first : (a b : Bool) → a ≡ true → (a || b) ≡ true
or_first a b h = ground arith

or_second : (a b : Bool) → b ≡ true → (a || b) ≡ true
or_second a b h = ground arith

found_here :
    (p : User → Bool) (v : User) (us : List User) → p v ≡ true → first_where p (v ∷ us) ≡ some v
found_here p v us h = rw h refl

found_later :
    (p : User → Bool) (v : User) (us : List User)
    → p v ≡ false
    → first_where p (v ∷ us) ≡ first_where p us
found_later p v us h = rw h refl

found_exists :
    (p : User → Bool) (us : List User) (u : User)
    → first_where p us ≡ some u
    → exists_where (λ (v : User). v.id == u.id) us ≡ true
found_exists p [] u h = absurd (let wrong : none ≡ some u = h in cc)
found_exists p (v ∷ us) u h = elim (Bool-cases (p v)) [
  | inl this ↦
      let same : v ≡ u = some_same _ _ (sym (found_here p v us this) ∙ h) in
      or_first _ _ (subst (λ n. (v.id == n) ≡ true) (ap (λ x. x.id) same) (==_refl v.id))
  | inr other ↦ or_second _ _ (found_exists p us u (sym (found_later p v us other) ∙ h))
]

new_login_token_ok :
    (id : ℕ) (w : World) (hash : String) (hashes : List String)
    → w.faults ≡ []
    → w.hashes ≡ hash ∷ hashes
    → exists_where (token_with hash) w.db.tokens ≡ false
    → user_exists id w.db ≡ true
    → (new_login_token id w).0 ≡ ok tt
unfolding new_login_token create_auth_token insert_token get_hash get_now exec ◌>>=◌
new_login_token_ok id w hash hashes calm hs fresh exists = rw (hs, calm, fresh, exists) refl

-- A world where every statement works and the coming token is a new one.
pub record IsReady (w : World) : Type 0 where
  pub calm : w.faults ≡ []
  pub live : w.frozen ≡ none
  pub hash : String
  pub hashes : List String
  pub next : w.hashes ≡ hash ∷ hashes
  pub is_new : exists_where (token_with hash) w.db.tokens ≡ false

IsReady-tick : (w : World) → IsReady w → IsReady (tick w)
IsReady-tick w ready = record {
  calm = ap later_faults ready.calm;
  live = ready.live;
  hash = ready.hash;
  hashes = ready.hashes;
  next = ready.next;
  is_new = ready.is_new;
}

no_fault {ℓ} :
    {A : Type ℓ} (faults : List Bool) (x y : A)
    → faults ≡ []
    → (if next_fault faults then x else y) ≡ y
no_fault faults x y h = rw h refl

live_view : (w : World) → w.frozen ≡ none → view w ≡ w.db
live_view w h = rw h refl

link_for_sent :
    (found : Option User) (w : World)
    → IsReady w
    → ((u : User) → found ≡ some u → user_exists u.id w.db ≡ true)
    → (link_for (first_row found) w).0 ≡ ok magic_link_sent
unfolding link_for pure ◌>>=◌
link_for_sent none w ready known = refl
link_for_sent (some u) w ready known = elim (Bool-cases u.is_active) [
  | inl active ↦
      rw
        (
          active,
          new_login_token_ok u.id w ready.hash ready.hashes ready.calm ready.next ready.is_new
              (known u refl),
        )
        refl
  | inr inactive ↦ rw inactive refl
]

lookup_sent :
    (email : String) (w : World)
    → IsReady w
    → ((do user ← attempt (get_user_by_email email); link_for user) w).0 ≡ ok magic_link_sent
unfolding get_user_by_email attempt query ◌>>=◌
lookup_sent email w ready =
    ap (λ r. (link_for r (tick w)).0)
      (no_fault w.faults _ _ ready.calm
        ∙ ap (λ d. first_row (first_where (has_email email) d.users)) (live_view w ready.live))
    ∙ link_for_sent (first_where (has_email email) w.db.users) (tick w) (IsReady-tick w ready)
        (λ u found. found_exists (has_email email) w.db.users u found)

record_and_link_sent :
    (email email_hash : String) (w : World)
    → IsReady w
    → (record_and_link email email_hash w).0 ≡ ok magic_link_sent
unfolding record_and_link record_login_attempt exec get_now ◌>>=◌
record_and_link_sent email email_hash w ready =
    ap
      (λ (r : Result (Unit {0}) × World).
        (after r.0 (λ _. do user ← attempt (get_user_by_email email); link_for user) r.1).0)
      (no_fault w.faults _ _ ready.calm)
    ∙ lookup_sent email _ record {
      calm = ap later_faults ready.calm;
      live = ready.live;
      hash = ready.hash;
      hashes = ready.hashes;
      next = ready.next;
      is_new = ready.is_new;
    }

limited_or_sent :
    (email hash : String) (n : ℕ) (w : World)
    → IsReady w
    → (limit_or_link email hash n w).0
      ≡ ok (if leb 3 n then magic_link_rate_limited else magic_link_sent)
unfolding limit_or_link pure
limited_or_sent email hash n w ready = elim (Bool-cases (leb 3 n)) [
  | inl many ↦ rw many refl
  | inr few ↦ rw few (record_and_link_sent email hash w ready)
]

-- The answer, from the text of the address and the number of attempts.
abbrev pub answer_to : String → ℕ → MagicLinkOutcome
answer_to email attempts =
    if not (is_address email)
    then magic_link_invalid_email
    else if leb 3 attempts
    then magic_link_rate_limited
    else magic_link_sent

module _ (crypto : Crypto) (normalise : String → String) where
  -- The answer to a request for a login link depends on the text of the address and on the attempts
  -- of the last hour for it, and on no account: it is the same whether the address is known, unknown
  -- or deactivated. No statement fails, the read connection shows the database, and the coming
  -- random token is not one of the stored ones.
  pub request_magic_link_alike :
      (raw : String) (w : World)
      → IsReady w
      → (request_magic_link crypto normalise raw w).0
        ≡ ok (
            answer_to (normalise raw) (
              count_where
                (is_recent_attempt (sha256_hex crypto (normalise raw)) w.now)
                w.db.login_attempts))
  unfolding request_magic_link count_recent_login_attempts get_now pure ◌>>=◌ query
  request_magic_link_alike raw w ready = elim (Bool-cases (is_address (normalise raw))) [
    | inl good ↦ rw good (
        ap (λ (r : Result ℕ). (after r (λ n. limit_or_link email hash n) (tick w)).0)
          (no_fault w.faults _ _ ready.calm
            ∙ ap (λ d. ok (count_where (is_recent_attempt hash w.now) d.login_attempts))
                (live_view w ready.live))
        ∙ limited_or_sent email hash _ (tick w) (IsReady-tick w ready))
    | inr bad ↦ rw bad refl
  ]
    where
      email : String
      email = normalise raw

      hash : String
      hash = sha256_hex crypto email
