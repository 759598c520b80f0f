-- ===== src/Store/Exec/Inversion.antt =====
-- What a successful action says of its parts.
use piecesoflife.Prelude.{
  ◌≡◌, ◌≢◌, refl, sym, ap, ◌∙◌, ◌⊎◌, inl, inr, Bool, true, false, arith, if◌then◌else◌,
}
use piecesoflife.Store.Rows.{Db}
use piecesoflife.Store.Exec.{
  Err, Result, ok, err, driver, World, Exec, tick, next_fault, pure, raise, query, query_write,
  view, exec, wrote, after, ◌>>=◌, settle, framed, transaction, commit_if, framed_if, settle_if,
  transaction_if,
}

module _ {ℓ κ} {A : Type ℓ} {B : Type κ} where
  after_ok :
      (r : Result A) (w : World) (f : A → Exec B) {b : B}
      → (after r f w).0 ≡ ok b
      → (a : A) × (r ≡ ok a) × (after r f w ≡ f a w)
  after_ok (ok a) w f h = (a, refl, refl)
  after_ok (err e) w f h = cc

  -- The first part succeeded, and the rest ran from where it ended.
  pub bind_ok :
      (m : Exec A) (f : A → Exec B) (w : World) {b : B}
      → ((m >>= f) w).0 ≡ ok b
      → (a : A) × ((m w).0 ≡ ok a) × ((m >>= f) w ≡ f a (m w).1)
  unfolding ◌>>=◌
  bind_ok m f w h = after_ok (m w).0 (m w).1 f h

  -- What the first part gave, and that the rest succeeded from where it ended.
  pub bind_rest :
      (m : Exec A) (f : A → Exec B) (w : World) (b : B)
      → ((m >>= f) w).0 ≡ ok b
      → (a : A) × ((m w).0 ≡ ok a) × ((f a (m w).1).0 ≡ ok b) × (((m >>= f) w).1 ≡ (f a (m w).1).1)
  bind_rest m f w b h =
      let (a, ran, run) = bind_ok m f w h in
      (a, ran, sym (ap (λ r. r.0) run) ∙ h, ap (λ r. r.1) run)

module _ {ℓ} {A : Type ℓ} where
  wrote_ok :
      (r : Result (A × Db)) (w : World) {a : A}
      → (wrote r w).0 ≡ ok a
      → (d : Db) × (r ≡ ok (a, d)) × ((wrote r w).1.db ≡ d)
  wrote_ok (ok (b, d)) w h = (d, cc, refl)
  wrote_ok (err e) w h = cc

  exec_cases :
      (b : Bool) (r : Result (A × Db)) (w : World) {a : A}
      → (if b then (err driver, w) else wrote r w).0 ≡ ok a
      → (d : Db) × (r ≡ ok (a, d)) × ((if b then (err driver, w) else wrote r w).1.db ≡ d)
  exec_cases true r w h = cc
  exec_cases false r w h = wrote_ok r w h

  -- The statement succeeded.
  pub exec_ok :
      (s : Db → Result (A × Db)) (w : World) {a : A}
      → (exec s w).0 ≡ ok a
      → (d : Db) × (s w.db ≡ ok (a, d)) × ((exec s w).1.db ≡ d)
  unfolding exec
  exec_ok s w h = exec_cases (next_fault w.faults) (s w.db) (tick w) h

  settle_ok :
      (old : Db) (r : Result A) (w : World) {a : A}
      → (settle old (r, w)).0 ≡ ok a
      → (r ≡ ok a) × (settle old (r, w) ≡ (r, w))
  settle_ok old (ok b) w h = (h, refl)
  settle_ok old (err e) w h = cc

  settle_err :
      (old : Db) (r : Result A) (w : World) {e : Err}
      → (settle old (r, w)).0 ≡ err e
      → (settle old (r, w)).1.db ≡ old
  settle_err old (ok b) w h = cc
  settle_err old (err e) w h = refl

  -- A transaction that fails has written nothing.
  pub transaction_err :
      (m : Exec A) (w : World) {e : Err}
      → (transaction m w).0 ≡ err e
      → (transaction m w).1.db ≡ w.db
  unfolding transaction
  transaction_err m w h = settle_err w.db (framed m w).0 (framed m w).1 h

  framed_ok :
      (m : Exec A) (w : World) {a : A}
      → (framed m w).0 ≡ ok a
      → ((m (tick w)).0 ≡ ok a) × ((framed m w).1.db ≡ (m (tick w)).1.db)
  unfolding framed query_write pure ◌>>=◌
  framed_ok m w h = ground arith

  -- A transaction that succeeds has done what its body did.
  pub transaction_ok :
      (m : Exec A) (w : World) {a : A}
      → (transaction m w).0 ≡ ok a
      → ((m (tick w)).0 ≡ ok a) × ((transaction m w).1.db ≡ (m (tick w)).1.db)
  unfolding transaction
  transaction_ok m w h =
      let settled = settle_ok w.db (framed m w).0 (framed m w).1 h in
      let body = framed_ok m w settled.0 in (body.0, ap (λ p. p.1.db) settled.1 ∙ body.1)

  unfailing_ok : (b : Bool) (r : Result A) (a : A) → (if b then err driver else r) ≡ ok a → r ≡ ok a
  unfailing_ok true r a h = cc
  unfailing_ok false r a h = h

  -- A query inside a transaction that succeeded read the database.
  pub query_write_ok :
      (q : Db → Result A) (w : World) (a : A) → (query_write q w).0 ≡ ok a → q w.db ≡ ok a
  unfolding query_write
  query_write_ok q w a h = unfailing_ok (next_fault w.faults) (q w.db) a h

  -- A query that succeeded read what the pool shows.
  pub query_ok : (q : Db → Result A) (w : World) (a : A) → (query q w).0 ≡ ok a → q (view w) ≡ ok a
  unfolding query
  query_ok q w a h = unfailing_ok (next_fault w.faults) (q (view w)) a h

  -- The guard let the rest run.
  pub guard_ok :
      (b : Bool) (e : Err) (m : Exec A) (w : World) (a : A)
      → ((if b then raise e else m) w).0 ≡ ok a
      → (b ≡ false) × ((if b then raise e else m) w ≡ m w)
  unfolding raise
  guard_ok true e m w a h = cc
  guard_ok false e m w a h = (refl, refl)

commit_if_ok :
    (b c : Bool) (w : World) → (commit_if b w).0 ≡ ok c → (c ≡ b) × ((commit_if b w).1.db ≡ w.db)
unfolding query_write pure ◌>>=◌
commit_if_ok true c w h = ground arith
commit_if_ok false c w h = ground arith

framed_if_ok :
    (m : Exec Bool) (w : World) (b : Bool)
    → (framed_if m w).0 ≡ ok b
    → ((m (tick w)).0 ≡ ok b) × ((framed_if m w).1.db ≡ (m (tick w)).1.db)
unfolding query_write
framed_if_ok m w b h =
    let (u, begun, next) = bind_ok (query_write (λ _. ok (tt {0}))) _ w h in
    let (c, ran, next') = bind_ok m commit_if (tick w) (sym (ap (λ r. r.0) next) ∙ h) in
    let (same, db) = commit_if_ok c b (m (tick w)).1 (sym (ap (λ r. r.0) (next ∙ next')) ∙ h) in
    (ran ∙ ap ok (sym same), ap (λ r. r.1.db) (next ∙ next') ∙ db)

settle_if_ok :
    (old : Db) (r : Result Bool) (w : World)
    → (settle_if old (r, w)).0 ≡ ok tt
    → ((r ≡ ok true) × ((settle_if old (r, w)).1.db ≡ w.db))
      ⊎ ((r ≡ ok false) × ((settle_if old (r, w)).1.db ≡ old))
settle_if_ok old (ok true) w h = inl (refl, refl)
settle_if_ok old (ok false) w h = inr (refl, refl)
settle_if_ok old (err e) w h = cc

-- Such a transaction has done what its body did, or nothing.
pub transaction_if_ok :
    (m : Exec Bool) (w : World)
    → (transaction_if m w).0 ≡ ok tt
    → (((m (tick w)).0 ≡ ok true) × ((transaction_if m w).1.db ≡ (m (tick w)).1.db))
      ⊎ (((m (tick w)).0 ≡ ok false) × ((transaction_if m w).1.db ≡ w.db))
unfolding transaction_if
transaction_if_ok m w h = elim (settle_if_ok w.db (framed_if m w).0 (framed_if m w).1 h) [
  | inl (done, db) ↦ let body = framed_if_ok m w true done in inl (body.0, db ∙ body.1)
  | inr (left, db) ↦ inr ((framed_if_ok m w false left).0, db)
]

settle_if_kept :
    (old : Db) (r : Result Bool) (w : World) → r ≢ ok true → (settle_if old (r, w)).1.db ≡ old
settle_if_kept old (ok true) w h = absurd (h refl)
settle_if_kept old (ok false) w h = refl
settle_if_kept old (err e) w h = refl

-- Without a commit nothing is written.
pub transaction_if_kept :
    (m : Exec Bool) (w : World) → (m (tick w)).0 ≢ ok true → (transaction_if m w).1.db ≡ w.db
unfolding transaction_if
transaction_if_kept m w h =
    settle_if_kept w.db (framed_if m w).0 (framed_if m w).1 (λ k. h (framed_if_ok m w true k).0)
