-- ===== src/Store/Exec.antt =====
-- internal/store/store.go: how code reaches the database. Writes and transactions go through the
-- one write connection. Plain reads go through a pooled read connection, which may be stuck inside
-- an old snapshot. Any statement may fail in the driver (a lock, a cancelled context, the disk).
pub mod Respects
pub mod Inversion
use piecesoflife.Prelude.{
  String, ℕ, ◌≡◌, refl, Bool, true, false, Option, none, some, List, [], ◌∷◌, if◌then◌else◌,
}
use piecesoflife.Store.Rows.{Db, EmailType}

-- An email that the mail server has accepted.
pub record Mail : Type 0 where
  pub user_id : ℕ
  pub email_type : EmailType
  pub issue_id : ℕ

-- The errors that the code tells apart, and those that it only passes on.
pub data Err : Type 0 where
  driver no_rows schedule_overlap : Err
  unique_violation check_violation foreign_key_violation : Err
  invalid_update no_such_event no_free_label : Err
  invalid_event not_collecting handler token_already_consumed : Err
  order_mismatch not_curatable not_accepting_suggestions duplicate_text invalid_target : Err
  version_conflict : ℕ → Err

pub data Result {ℓ} (A : Type ℓ) : Type ℓ where
  ok : A → Result A
  err : Err → Result A

-- What the program runs in. `frozen` is the snapshot of a stuck read connection, if the pool hands
-- one out. `faults` says of each coming statement whether the driver fails it, and `refusals` of each
-- coming email whether sending it fails; past their ends nothing fails. `stops` says of each coming
-- look at the context whether it is cancelled. `now` is the clock, and `outbox` what has been sent,
-- the newest first. `hashes` are the hashes of the coming random tokens, and `picks` the choices that
-- ORDER BY RANDOM() makes.
pub record World : Type 0 where
  pub db : Db
  pub frozen : Option Db
  pub now : ℕ
  pub faults : List Bool
  pub refusals : List Bool
  pub stops : List Bool
  pub outbox : List Mail
  pub hashes : List String
  pub picks : List ℕ

abbrev pub Exec {ℓ} : Type ℓ → Type ℓ
Exec A = World → Result A × World

-- What a pooled read connection sees.
abbrev pub view : World → Db
view w = elim w.frozen [ none ↦ w.db | some old ↦ old ]

abbrev pub next_fault : List Bool → Bool
next_fault [] = false
next_fault (b ∷ bs) = b

abbrev pub later_faults : List Bool → List Bool
later_faults [] = []
later_faults (b ∷ bs) = bs

-- The world after one more statement.
abbrev pub tick : World → World
tick w = record w { faults = later_faults w.faults }

-- The same world with a driver that fails no statement.
abbrev pub calm : World → World
calm w = record w { faults = [] }

module _ {ℓ} {A : Type ℓ} where
  unfoldable pub pure : A → Exec A
  pure a w = (ok a, w)

  unfoldable pub raise : Err → Exec A
  raise e w = (err e, w)

  -- A query on the read pool.
  unfoldable pub query : (Db → Result A) → Exec A
  query q w = (if next_fault w.faults then err driver else q (view w), tick w)

  -- A query on the write pool, or inside a transaction.
  unfoldable pub query_write : (Db → Result A) → Exec A
  query_write q w = (if next_fault w.faults then err driver else q w.db, tick w)

  abbrev pub wrote : Result (A × Db) → World → Result A × World
  wrote (ok (a, db)) w = (ok a, record w { db = db })
  wrote (err e) w = (err e, w)

  -- A statement that writes: it changes the database, or fails and changes nothing.
  unfoldable pub exec : (Db → Result (A × Db)) → Exec A
  exec s w = if next_fault w.faults then (err driver, tick w) else wrote (s w.db) (tick w)

  -- `x, err := m`, where the code goes on whatever `err` is.
  unfoldable pub attempt : Exec A → Exec (Result A)
  attempt m w = let (r, w') = m w in (ok r, w')

  unfoldable pub lift : Result A → Exec A
  lift r w = (r, w)

module _ {ℓ κ} {A : Type ℓ} {B : Type κ} where
  abbrev pub after : Result A → (A → World → Result B × World) → World → Result B × World
  after (ok a) f w = f a w
  after (err e) f w = (err e, w)

  infixl 10 ◌>>=◌ ◌>>◌
  unfoldable pub ◌>>=◌ :
      (World → Result A × World) → (A → World → Result B × World) → World → Result B × World
  ◌>>=◌ m f w = let (r, w') = m w in after r f w'

  abbrev pub ◌>>◌ :
      (World → Result A × World) → (World → Result B × World) → World → Result B × World
  m >> n = m >>= λ _. n

unfoldable pub get_now : Exec ℕ
get_now w = (ok w.now, w)

abbrev next_pick : List ℕ → ℕ
next_pick [] = 0
next_pick (n ∷ ns) = n

abbrev later_picks : List ℕ → List ℕ
later_picks [] = []
later_picks (n ∷ ns) = ns

-- The choice that the coming ORDER BY RANDOM() makes.
unfoldable pub get_pick : Exec ℕ
get_pick w = (ok (next_pick w.picks), record w { picks = later_picks w.picks })

abbrev next_hash : List String → Result String
next_hash [] = err handler
next_hash (h ∷ hs) = ok h

abbrev later_hashes : List String → List String
later_hashes [] = []
later_hashes (h ∷ hs) = hs

-- The hash of a new random token.
unfoldable pub get_hash : Exec String
get_hash w = (next_hash w.hashes, record w { hashes = later_hashes w.hashes })

-- The mail server takes the email, or refuses it.
unfoldable pub send_mail : Mail → Exec (Unit {0})
send_mail mail w =
    if next_fault w.refusals
    then (err handler, record w { refusals = later_faults w.refusals })
    else (ok tt, record w { refusals = later_faults w.refusals; outbox = mail ∷ w.outbox })

-- `ctx.Err() != nil`
unfoldable pub is_cancelled : Exec Bool
is_cancelled w = (ok (next_fault w.stops), record w { stops = later_faults w.stops })

abbrev pub settle {ℓ} : {A : Type ℓ} → Db → Result A × World → Result A × World
settle old (ok a, w) = (ok a, w)
settle old (err e, w) = (err e, record w { db = old })

module _ {ℓ} {A : Type ℓ} where
  -- BEGIN IMMEDIATE, the body, COMMIT
  unfoldable pub framed : Exec A → Exec A
  framed m = do query_write (λ _. ok (tt {0})); a ← m; query_write (λ _. ok (tt {0})); pure a

  -- `defer tx.Rollback()` undoes the body if any part fails.
  unfoldable pub transaction : Exec A → Exec A
  transaction m w = settle w.db (framed m w)

abbrev pub commit_if : Bool → Exec Bool
commit_if true = do query_write (λ _. ok (tt {0})); pure true
commit_if false = pure false

abbrev pub framed_if : Exec Bool → Exec Bool
framed_if m = do query_write (λ _. ok (tt {0})); b ← m; commit_if b

abbrev pub settle_if : Db → Result Bool × World → Result (Unit {0}) × World
settle_if old (ok true, w) = (ok tt, w)
settle_if old (ok false, w) = (ok tt, record w { db = old })
settle_if old (err e, w) = (err e, record w { db = old })

-- A transaction whose body may return before the COMMIT, with `false`: the rollback undoes it.
unfoldable pub transaction_if : Exec Bool → Exec (Unit {0})
transaction_if m w = settle_if w.db (framed_if m w)
