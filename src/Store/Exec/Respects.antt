-- ===== src/Store/Exec/Respects.antt =====
-- Relations between the database before and after an action: one rule for each way to build an
-- action, for any relation that holds of no change and of two changes in a row.
use piecesoflife.Prelude.{◌≡◌, refl, Bool, true, false, if◌then◌else◌, Bool-cases, inl, inr}
use piecesoflife.Store.Rows.{Db}
use piecesoflife.Store.Exec.{
  Err, Result, ok, err, World, Exec, tick, next_fault, pure, raise, query, query_write, exec, wrote,
  attempt, lift, after, ◌>>=◌, get_now, get_pick, get_hash, send_mail, Mail, is_cancelled, settle,
  framed, transaction, commit_if, framed_if, settle_if, transaction_if,
}

pub record IsPreorder (R : Db → Db → Type 0) : Type 0 where
  pub same : (d : Db) → R d d
  pub chain : (d e f : Db) → R d e → R e f → R d f

-- `R` holds between the databases before and after `m`, whether it returns or fails.
pub record Respects {ℓ} {A : Type ℓ} (R : Db → Db → Type 0) (m : Exec A) : Type ℓ where
  pub at : (w : World) → R w.db (m w).1.db

abbrev pub Granted {ℓ} : {A : Type ℓ} → (Db → Db → Type 0) → Db → Result (A × Db) → Type 0
Granted R d (ok (a, d')) = R d d'
Granted R d (err e) = Unit

-- A statement's result keeps to `R`, if it is no error.
pub record Grants {ℓ} {A : Type ℓ} (R : Db → Db → Type 0) (d : Db) (r : Result (A × Db))
    : Type 0 where
  pub granted : Granted R d r

module _ {ℓ} {A : Type ℓ} {R : Db → Db → Type 0} where
  pub Grants-ok : {d d' : Db} {a : A} → R d d' → Grants R d (ok (a, d'))
  Grants-ok h = record { granted = h }

  pub Grants-err : {d : Db} {e : Err} → Grants {A = A} R d (err e)
  Grants-err = record { granted = tt }

  pub Grants-if :
      {d : Db} {b : Bool} {r s : Result (A × Db)}
      → (b ≡ true → Grants R d r)
      → (b ≡ false → Grants R d s)
      → Grants R d (if b then r else s)
  Grants-if {b = true} hr hs = hr refl
  Grants-if {b = false} hr hs = hs refl

pub ruleset grants_rules = (Grants-ok, Grants-err, Grants-if)

module _ {R : Db → Db → Type 0} (order : IsPreorder R) where
  module _ {ℓ} {A : Type ℓ} where
    pub Respects-pure : (a : A) → Respects R (pure a)
    unfolding pure
    Respects-pure a = record { at = λ w. order.same w.db }

    pub Respects-raise : (e : Err) → Respects R (raise {A = A} e)
    unfolding raise
    Respects-raise e = record { at = λ w. order.same w.db }

    pub Respects-lift : (r : Result A) → Respects R (lift r)
    unfolding lift
    Respects-lift r = record { at = λ w. order.same w.db }

    pub Respects-query : (q : Db → Result A) → Respects R (query q)
    unfolding query
    Respects-query q = record { at = λ w. order.same w.db }

    pub Respects-query_write : (q : Db → Result A) → Respects R (query_write q)
    unfolding query_write
    Respects-query_write q = record { at = λ w. order.same w.db }

    wrote-R : (w : World) (r : Result (A × Db)) → Granted R w.db r → R w.db (wrote r w).1.db
    wrote-R w (ok (a, d)) h = h
    wrote-R w (err e) h = order.same w.db

    -- A statement need only relate the databases where it succeeds.
    pub Respects-exec :
        (s : Db → Result (A × Db)) → ((d : Db) → Grants R d (s d)) → Respects R (exec s)
    unfolding exec
    Respects-exec s h = record {
      at = λ w. elim (Bool-cases (next_fault w.faults)) [
        | inl bad ↦ rw bad (order.same w.db)
        | inr good ↦ rw good (wrote-R (tick w) (s w.db) (h w.db).granted)
      ];
    }

    pub Respects-attempt : (m : Exec A) → Respects R m → Respects R (attempt m)
    unfolding attempt
    Respects-attempt m h = record { at = λ w. h.at w }

    pub Respects-if :
        (b : Bool) (m n : Exec A) → Respects R m → Respects R n → Respects R (if b then m else n)
    Respects-if true m n hm hn = hm
    Respects-if false m n hm hn = hn

  pub Respects-get_now : Respects R get_now
  unfolding get_now
  Respects-get_now = record { at = λ w. order.same w.db }

  pub Respects-get_pick : Respects R get_pick
  unfolding get_pick
  Respects-get_pick = record { at = λ w. order.same w.db }

  pub Respects-get_hash : Respects R get_hash
  unfolding get_hash
  Respects-get_hash = record { at = λ w. order.same w.db }

  pub Respects-send_mail : (mail : Mail) → Respects R (send_mail mail)
  unfolding send_mail
  Respects-send_mail mail = record {
    at = λ w. elim (Bool-cases (next_fault w.refusals)) [
      | inl refused ↦ rw refused (order.same w.db)
      | inr taken ↦ rw taken (order.same w.db)
    ];
  }

  pub Respects-is_cancelled : Respects R is_cancelled
  unfolding is_cancelled
  Respects-is_cancelled = record { at = λ w. order.same w.db }

  module _ {ℓ κ} {A : Type ℓ} {B : Type κ} where
    after-R :
        (d : Db) (r : Result A) (f : A → Exec B) (w : World)
        → R d w.db
        → ((a : A) → Respects R (f a))
        → R d (after r f w).1.db
    after-R d (ok a) f w h hf = order.chain d w.db _ h ((hf a).at w)
    after-R d (err e) f w h hf = h

    pub Respects-bind :
        (m : Exec A) (f : A → Exec B)
        → Respects R m
        → ((a : A) → Respects R (f a))
        → Respects R (m >>= f)
    unfolding ◌>>=◌
    Respects-bind m f hm hf = record { at = λ w. after-R w.db (m w).0 f (m w).1 (hm.at w) hf }

  module _ {ℓ} {A : Type ℓ} where
    settle-R : (d : Db) (r : Result A) (w : World) → R d w.db → R d (settle d (r, w)).1.db
    settle-R d (ok a) w h = h
    settle-R d (err e) w h = order.same d

    pub Respects-framed : (m : Exec A) → Respects R m → Respects R (framed m)
    unfolding framed
    Respects-framed m hm = search (Respects-bind, Respects-query_write, Respects-pure) depth 9

    pub Respects-transaction : (m : Exec A) → Respects R m → Respects R (transaction m)
    unfolding transaction
    Respects-transaction m hm = record {
      at = λ w. settle-R w.db (framed m w).0 (framed m w).1 ((Respects-framed m hm).at w);
    }

  settle_if-R : (d : Db) (r : Result Bool) (w : World) → R d w.db → R d (settle_if d (r, w)).1.db
  settle_if-R d (ok true) w h = h
  settle_if-R d (ok false) w h = order.same d
  settle_if-R d (err e) w h = order.same d

  commit_if-Respects : (b : Bool) → Respects R (commit_if b)
  commit_if-Respects true = search (Respects-bind, Respects-query_write, Respects-pure) depth 9
  commit_if-Respects false = Respects-pure false

  Respects-framed_if : (m : Exec Bool) → Respects R m → Respects R (framed_if m)
  Respects-framed_if m hm = search (Respects-bind, Respects-query_write, commit_if-Respects) depth 9

  pub Respects-transaction_if : (m : Exec Bool) → Respects R m → Respects R (transaction_if m)
  unfolding transaction_if
  Respects-transaction_if m hm = record {
    at = λ w. settle_if-R w.db (framed_if m w).0 (framed_if m w).1 ((Respects-framed_if m hm).at w);
  }

pub ruleset respects_rules = (
  Respects-pure, Respects-raise, Respects-lift, Respects-query, Respects-query_write,
  Respects-attempt, Respects-if, Respects-get_now, Respects-get_pick, Respects-get_hash,
  Respects-send_mail, Respects-is_cancelled, Respects-bind, Respects-transaction,
  Respects-transaction_if,
)
