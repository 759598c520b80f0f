-- ===== src/Prelude/Distinct.antt =====
-- Tables in which no two rows are the same by some test, such as a key, and what the statements of
-- `Prelude.Rows` do to them.
use mathlib.Core.Path.{◌≡◌, refl, fun_ext}
use mathlib.Core.Bool.{Bool, true, false, ◌||◌}
use mathlib.Core.List.{List, [], ◌∷◌, ◌++◌}
use native.Mathlib.Omega.{arith}
use piecesoflife.Prelude.Tests.{if◌then◌else◌}
use piecesoflife.Prelude.Rows.{exists_where, delete_where, update_where, All}

module _ {ℓ} {A : Type ℓ} where
  pub exists_where-append :
      (p : A → Bool) (xs : List A) (y : A)
      → exists_where p (xs ++ y ∷ []) ≡ (exists_where p xs || p y)
  exists_where-append p [] y = ground arith
  exists_where-append p (x ∷ xs) y = ground (arith, exists_where-append p xs y)

  pub exists_where-delete :
      (p q : A → Bool) (xs : List A)
      → exists_where p xs ≡ false
      → exists_where p (delete_where q xs) ≡ false
  exists_where-delete p q [] h = refl
  exists_where-delete p q (x ∷ xs) h = ground (arith, exists_where-delete p q xs)

  pub exists_where-update :
      (p q : A → Bool) (f : A → A) (xs : List A)
      → ((x : A) → p (f x) ≡ p x)
      → exists_where p (update_where q f xs) ≡ exists_where p xs
  exists_where-update p q f [] h = refl
  exists_where-update p q f (x ∷ xs) h = ground (arith, exists_where-update p q f xs h, h x)

  -- No two rows are the same.
  abbrev pub Distinct : (A → A → Bool) → List A → Type 0
  Distinct same [] = Unit
  Distinct same (x ∷ xs) = (exists_where (same x) xs ≡ false) × Distinct same xs

  pub Distinct-append :
      (same : A → A → Bool) (xs : List A) (y : A)
      → ((x : A) → same x y ≡ same y x)
      → Distinct same xs
      → exists_where (same y) xs ≡ false
      → Distinct same (xs ++ y ∷ [])
  Distinct-append same [] y sym h n = ground arith
  Distinct-append same (x ∷ xs) y sym h n =
      ground (arith, exists_where-append (same x) xs y, sym x, Distinct-append same xs y sym h.1)

  pub Distinct-delete :
      (same : A → A → Bool) (q : A → Bool) (xs : List A)
      → Distinct same xs
      → Distinct same (delete_where q xs)
  Distinct-delete same q [] h = h
  Distinct-delete same q (x ∷ xs) h =
      ground (arith, exists_where-delete (same x) q xs h.0, Distinct-delete same q xs h.1)

  -- An update that keeps what the test reads.
  pub Distinct-update :
      (same : A → A → Bool) (q : A → Bool) (f : A → A) (xs : List A)
      → ((x y : A) → same (f x) y ≡ same x y)
      → ((x y : A) → same x (f y) ≡ same x y)
      → Distinct same xs
      → Distinct same (update_where q f xs)
  Distinct-update same q f [] hl hr h = h
  Distinct-update same q f (x ∷ xs) hl hr h = (kept (q x), Distinct-update same q f xs hl hr h.1)
    where
      fresh : exists_where (same x) (update_where q f xs) ≡ false
      fresh = rw (exists_where-update (same x) q f xs (hr x)) h.0

      kept : (b : Bool) → exists_where (same (if b then f x else x)) (update_where q f xs) ≡ false
      kept true = rw (fun_ext (hl x)) fresh
      kept false = fresh

  pub All-append {κ} :
      (P : A → Type κ) (xs : List A) (y : A) → All P xs → P y → All P (xs ++ y ∷ [])
  All-append P [] y h k = (k, tt)
  All-append P (x ∷ xs) y h k = (h.0, All-append P xs y h.1 k)
