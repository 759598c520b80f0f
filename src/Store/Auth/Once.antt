-- ===== src/Store/Auth/Once.antt =====
-- internal/store/auth.go: consuming a magic link, and again.
use piecesoflife.Prelude.{
  ℕ, ◌≡◌, refl, ap, ◌∙◌, Bool, false, List, [], ◌∷◌, arith, update_where, count_where,
}
use piecesoflife.Store.Rows.{AuthToken}
use piecesoflife.Store.Exec.{
  ok, err, token_already_consumed, World, calm, pure, raise, exec, get_now, ◌>>=◌,
}
use piecesoflife.Store.Auth.{is_unconsumed, consume, consume_row, consume_auth_token}

module _ {ℓ} {A : Type ℓ} (p : A → Bool) (f : A → A) where
  update_where-none : (xs : List A) → count_where p xs ≡ 0 → update_where p f xs ≡ xs
  update_where-none [] h = refl
  update_where-none (x ∷ xs) h = ground (arith, update_where-none xs)

  pub count_where-update :
      (xs : List A) → ((x : A) → p (f x) ≡ false) → count_where p (update_where p f xs) ≡ 0
  count_where-update [] off = refl
  count_where-update (x ∷ xs) off = ground (arith, off x, count_where-update xs off)

abbrev at_time : ℕ → World → World
at_time t w = record (calm w) { now = t }

pub unconsumed_off : (id now : ℕ) (t : AuthToken) → is_unconsumed id (consume now t) ≡ false
unconsumed_off id now t = ground arith

pub consumed_db :
    (id : ℕ) (w : World)
    → (consume_auth_token id w).0 ≡ ok tt
    → (consume_auth_token id w).1.db.tokens
      ≡ update_where (is_unconsumed id) (consume w.now) w.db.tokens
unfolding consume_auth_token consume_row exec get_now pure raise ◌>>=◌
consumed_db id w h = ground arith

spent :
    (id : ℕ) (w : World)
    → count_where (is_unconsumed id) w.db.tokens ≡ 0
    → consume_auth_token id (calm w) ≡ (err token_already_consumed, calm w)
unfolding consume_auth_token consume_row exec get_now pure raise ◌>>=◌
spent id w h = ground (arith, h, update_where-none (is_unconsumed id) (consume w.now) w.db.tokens h)

-- A token that was consumed is refused from then on: a second consumption, at whatever time, fails
-- as consumed already and changes nothing.
pub consume_auth_token_once :
    (id t : ℕ) (w : World)
    → (consume_auth_token id w).0 ≡ ok tt
    → consume_auth_token id (at_time t (consume_auth_token id w).1)
      ≡ (err token_already_consumed, at_time t (consume_auth_token id w).1)
consume_auth_token_once id t w h = spent id (at_time t (consume_auth_token id w).1) (
    ap (count_where (is_unconsumed id)) (consumed_db id w h)
    ∙ count_where-update (is_unconsumed id) (consume w.now) w.db.tokens (unconsumed_off id w.now))
