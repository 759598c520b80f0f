-- ===== src/Boot/History/Still.antt =====
-- The actions of a boot that leave both counters alone: all of the migrations, and every look.
use piecesoflife.Prelude.{
  ℕ, ◌≡◌, refl, ◌∙◌, Bool, true, false, Option, none, some, List, [], ◌∷◌, if◌then◌else◌,
  Bool-cases, inl, inr,
}
use piecesoflife.Boot.State.{
  Sql, Directory, Boot, BootErr, Outcome, done, stopped, Step, works, fails, dies, next_step,
  stepped, tried, pure, raise, look, change, assign, cleaned, or_clean, is_crash, is_crashed, after,
  ◌>>=◌,
}
use piecesoflife.Boot.Migrations.{
  Entry, PendingMigration, create_versions_table, named_pending, entry_pending, list_pending,
  backup_before_migration, undone, migration_transaction, store_tables, record_version,
  check_references, keys_back, framed_migration, with_keys_back, run_script, apply_migration,
  apply_all, upgrade, run_migrations,
}

module _ {S : Type 0} where
  -- The counter of the database and the file beside it are as before.
  pub record IsStill (d e : Directory S) : Type 0 where
    pub sidecar : e.sidecar ≡ d.sidecar
    pub generation : e.db.generation ≡ d.db.generation

  pub IsStill-refl : (d : Directory S) → IsStill d d
  IsStill-refl d = record { sidecar = refl; generation = refl }

  pub IsStill-chain : (d e f : Directory S) → IsStill d e → IsStill e f → IsStill d f
  IsStill-chain d e f h k = record {
    sidecar = k.sidecar ∙ h.sidecar;
    generation = k.generation ∙ h.generation;
  }

  pub record Stays {ℓ} {A : Type ℓ} (m : Boot S A) : Type ℓ where
    pub at : (d : Directory S) → IsStill d (m d).1

  module _ {ℓ} {A : Type ℓ} where
    pub Stays-pure : (a : A) → Stays (pure a)
    unfolding pure
    Stays-pure a = record { at = λ d. IsStill-refl d }

    pub Stays-raise : (e : BootErr) → Stays (raise {A = A} e)
    unfolding raise
    Stays-raise e = record { at = λ d. IsStill-refl d }

    tried-IsStill :
        (s : Step) (a : A) (d new old : Directory S)
        → IsStill d new
        → IsStill d old
        → IsStill d (tried s a new old).1
    tried-IsStill works a d new old h k = h
    tried-IsStill fails a d new old h k = k
    tried-IsStill dies a d new old h k = k

    pub Stays-look : (f : Directory S → A) → Stays (look f)
    unfolding look
    Stays-look f = record {
      at = λ d.
          tried-IsStill (next_step d.steps) (f d) d (stepped d) (stepped d)
            record { sidecar = refl; generation = refl }
            record { sidecar = refl; generation = refl };
    }

    pub Stays-if : (b : Bool) (m n : Boot S A) → Stays m → Stays n → Stays (if b then m else n)
    Stays-if true m n h k = h
    Stays-if false m n h k = k

  pub Stays-change :
      (f : Directory S → Directory S) → ((d : Directory S) → IsStill d (f d)) → Stays (change f)
  unfolding change
  Stays-change f h = record {
    at = λ d.
        tried-IsStill (next_step d.steps) tt d (f (stepped d)) (stepped d)
          (IsStill-chain d (stepped d) (f (stepped d)) record { sidecar = refl; generation = refl }
            (h (stepped d)))
          record { sidecar = refl; generation = refl };
  }

  pub Stays-assign :
      (f : Directory S → Directory S) → ((d : Directory S) → IsStill d (f d)) → Stays (assign f)
  unfolding assign
  Stays-assign f h = record { at = λ d. h d }

  module _ {ℓ κ} {A : Type ℓ} {B : Type κ} where
    after-IsStill :
        (d : Directory S) (r : Outcome A) (f : A → Boot S B) (e : Directory S)
        → IsStill d e
        → ((a : A) → Stays (f a))
        → IsStill d (after r f e).1
    after-IsStill d (done a) f e h k = IsStill-chain d e _ h ((k a).at e)
    after-IsStill d (stopped x) f e h k = h

    pub Stays-bind :
        (m : Boot S A) (f : A → Boot S B) → Stays m → ((a : A) → Stays (f a)) → Stays (m >>= f)
    unfolding ◌>>=◌
    Stays-bind m f h k = record { at = λ d. after-IsStill d (m d).0 f (m d).1 (h.at d) k }

  undone-IsStill :
      (d : Directory S) (r : Outcome (Unit {0})) (e : Directory S)
      → IsStill d e
      → IsStill d (undone d.db (r, e)).1
  undone-IsStill d (done u) e h = h
  undone-IsStill d (stopped x) e h = record { sidecar = h.sidecar; generation = refl }

  pub ruleset still_rules = (
    Stays-pure, Stays-raise, Stays-look, Stays-if, Stays-change, Stays-assign, Stays-bind,
    IsStill-refl,
  )

  framed_migration-Stays : (m : Boot S (Unit {0})) → Stays m → Stays (framed_migration m)
  framed_migration-Stays m h = search still_rules depth 9

  migration_transaction-Stays : (m : Boot S (Unit {0})) → Stays m → Stays (migration_transaction m)
  unfolding migration_transaction
  migration_transaction-Stays m h = record {
    at = λ d.
        undone-IsStill d (framed_migration m d).0 (framed_migration m d).1
          ((framed_migration-Stays m h).at d);
  }

  keys_back-IsStill :
      (d : Directory S) (r : Outcome (Unit {0})) (s : Step) (e : Directory S)
      → IsStill d e
      → IsStill d (keys_back r s e).1
  keys_back-IsStill d r works e h = record { sidecar = h.sidecar; generation = h.generation }
  keys_back-IsStill d r fails e h = record { sidecar = h.sidecar; generation = h.generation }
  keys_back-IsStill d r dies e h = record { sidecar = h.sidecar; generation = h.generation }

  with_keys_back-Stays : (m : Boot S (Unit {0})) → Stays m → Stays (with_keys_back m)
  unfolding with_keys_back
  with_keys_back-Stays m h = record {
    at = λ d. elim (Bool-cases (is_crashed (m d).0)) [
      | inl gone ↦ rw gone (h.at d)
      | inr alive ↦
          rw alive (keys_back-IsStill d (m d).0 (next_step (m d).1.steps) (m d).1 (h.at d))
    ];
  }

  cleaned-IsStill :
      (f : Directory S → Directory S) (d : Directory S) (r : Outcome (Unit {0})) (e : Directory S)
      → ((c : Directory S) → IsStill c (f c))
      → IsStill d e
      → IsStill d (cleaned f r e).1
  cleaned-IsStill f d (done u) e k h = h
  cleaned-IsStill f d (stopped x) e k h = elim (Bool-cases (is_crash x)) [
    | inl gone ↦ rw gone h
    | inr alive ↦ rw alive (IsStill-chain d e (f e) h (k e))
  ]

  pub Stays-or_clean :
      (m : Boot S (Unit {0})) (f : Directory S → Directory S)
      → Stays m
      → ((d : Directory S) → IsStill d (f d))
      → Stays (or_clean m f)
  unfolding or_clean
  Stays-or_clean m f h k = record { at = λ d. cleaned-IsStill f d (m d).0 (m d).1 k (h.at d) }

  named_pending-Stays : (e : Entry) (v : Option ℕ) → Stays (named_pending e v)
  unfolding named_pending
  named_pending-Stays e none = search still_rules
  named_pending-Stays e (some v) = search still_rules depth 9

  module _ (sql : Sql S) where
    change-IsStill :
        (f : Directory S → Directory S)
        → ((d : Directory S) → (f d).sidecar ≡ d.sidecar)
        → ((d : Directory S) → (f d).db.generation ≡ d.db.generation)
        → (d : Directory S) → IsStill d (f d)
    change-IsStill f h k d = record { sidecar = h d; generation = k d }

    store_tables-Stays : (t : Option S) → Stays (store_tables t)
    unfolding store_tables
    store_tables-Stays none = search still_rules
    store_tables-Stays (some t) = Stays-assign _ (λ d. record { sidecar = refl; generation = refl })

    record_version-Stays : (v : ℕ) → Stays (record_version v)
    unfolding record_version
    record_version-Stays v = search (still_rules, change-IsStill, refl) depth 12

    check_references-Stays : (b : Bool) → Stays (check_references sql b)
    unfolding check_references
    check_references-Stays false = search still_rules
    check_references-Stays true = search still_rules depth 9

    run_script-Stays : (mig : PendingMigration) → Stays (run_script sql mig)
    unfolding run_script
    run_script-Stays mig =
        search
          (
            still_rules, migration_transaction-Stays, store_tables-Stays, check_references-Stays,
            record_version-Stays,
          )
          depth 12

    apply_migration-Stays : (mig : PendingMigration) → Stays (apply_migration sql mig)
    unfolding apply_migration
    apply_migration-Stays mig =
        search (still_rules, change-IsStill, refl, with_keys_back-Stays, run_script-Stays) depth 12

    apply_all-Stays : (migs : List PendingMigration) → Stays (apply_all sql migs)
    unfolding apply_all
    apply_all-Stays [] = search still_rules
    apply_all-Stays (mig ∷ migs) =
        Stays-bind (apply_migration sql mig) (λ _. apply_all sql migs) (apply_migration-Stays mig)
          (λ _. apply_all-Stays migs)

    upgrade-Stays : (n : ℕ) (migs : List PendingMigration) → Stays (upgrade sql n migs)
    unfolding upgrade backup_before_migration
    upgrade-Stays n [] = search still_rules
    upgrade-Stays n (mig ∷ migs) =
        search (still_rules, change-IsStill, refl, apply_all-Stays) depth 12

    entry_pending-Stays : (e : Entry) → Stays (entry_pending e)
    unfolding entry_pending
    entry_pending-Stays e = search (still_rules, named_pending-Stays) depth 9

    list_pending-Stays : (es : List Entry) → Stays (list_pending es)
    unfolding list_pending
    list_pending-Stays [] = search still_rules
    list_pending-Stays (e ∷ es) =
        Stays-bind (entry_pending e) _ (entry_pending-Stays e)
          (λ first. Stays-bind (list_pending es) _ (list_pending-Stays es) (λ rest. Stays-pure _))

    pub run_migrations-Stays : (entries : List Entry) → Stays (run_migrations sql entries)
    unfolding run_migrations create_versions_table
    run_migrations-Stays entries =
        search (still_rules, change-IsStill, refl, list_pending-Stays, upgrade-Stays) depth 14
