-- ===== src/Prelude/Rows.antt =====
-- Tables as lists of rows: WHERE, UPDATE, DELETE, EXISTS, COUNT and ORDER BY … LIMIT 1.
use Prim.Native.Nat.{ℕ, zero, suc, ◌/◌, ◌%◌}
use mathlib.Core.Path.{◌≡◌, refl}
use mathlib.Core.Bool.{Bool, true, false, ◌||◌}
use mathlib.Core.Option.{Option, none, some}
use mathlib.Core.List.{List, [], ◌∷◌, ◌++◌}
use native.Mathlib.Omega.{arith}
use piecesoflife.Prelude.Tests.{leb, if◌then◌else◌}

module _ {ℓ} {A : Type ℓ} where
  abbrev pub length : List A → ℕ
  length [] = 0
  length (x ∷ xs) = suc (length xs)

  -- SELECT … WHERE
  abbrev pub select : (A → Bool) → List A → List A
  select p [] = []
  select p (x ∷ xs) = let rest = select p xs in if p x then x ∷ rest else rest

  -- DELETE … WHERE
  abbrev pub delete_where : (A → Bool) → List A → List A
  delete_where p [] = []
  delete_where p (x ∷ xs) = let rest = delete_where p xs in if p x then rest else x ∷ rest

  -- UPDATE … SET … WHERE
  abbrev pub update_where : (A → Bool) → (A → A) → List A → List A
  update_where p f [] = []
  update_where p f (x ∷ xs) = (if p x then f x else x) ∷ update_where p f xs

  -- SELECT EXISTS(… WHERE …)
  abbrev pub exists_where : (A → Bool) → List A → Bool
  exists_where p [] = false
  exists_where p (x ∷ xs) = p x || exists_where p xs

  -- SELECT COUNT(*) … WHERE, and the affected rows of an UPDATE or a DELETE
  abbrev pub count_where : (A → Bool) → List A → ℕ
  count_where p [] = 0
  count_where p (x ∷ xs) = let n = count_where p xs in if p x then suc n else n

  -- The first row that satisfies the test: SELECT … WHERE … LIMIT 1
  abbrev pub first_where : (A → Bool) → List A → Option A
  first_where p [] = none
  first_where p (x ∷ xs) = let rest = first_where p xs in if p x then some x else rest

  -- One step of ORDER BY key ASC LIMIT 1; of equal keys the row that stands first wins.
  abbrev pub sooner : (A → ℕ) → A → Option A → A
  sooner key x none = x
  sooner key x (some y) = if leb (key x) (key y) then x else y

  -- SELECT … WHERE … ORDER BY key ASC LIMIT 1
  abbrev pub earliest_where : (A → Bool) → (A → ℕ) → List A → Option A
  earliest_where p key [] = none
  earliest_where p key (x ∷ xs) =
      let rest = earliest_where p key xs in if p x then some (sooner key x rest) else rest

  -- SELECT … WHERE … ORDER BY key DESC LIMIT 1
  abbrev pub later : (A → ℕ) → A → Option A → A
  later key x none = x
  later key x (some y) = if leb (key y) (key x) then x else y

  abbrev pub latest_where : (A → Bool) → (A → ℕ) → List A → Option A
  latest_where p key [] = none
  latest_where p key (x ∷ xs) =
      let rest = latest_where p key xs in if p x then some (later key x rest) else rest

  -- ORDER BY key ASC, stable
  abbrev pub insert_by : (A → ℕ) → A → List A → List A
  insert_by key x [] = x ∷ []
  insert_by key x (y ∷ ys) =
      let rest = insert_by key x ys in if leb (key x) (key y) then x ∷ y ∷ ys else y ∷ rest

  abbrev pub order_by : (A → ℕ) → List A → List A
  order_by key [] = []
  order_by key (x ∷ xs) = insert_by key x (order_by key xs)

  -- ORDER BY several keys, stable: `before x y` says that x may stand before y.
  abbrev pub insert_before : (A → A → Bool) → A → List A → List A
  insert_before before x [] = x ∷ []
  insert_before before x (y ∷ ys) =
      let rest = insert_before before x ys in if before x y then x ∷ y ∷ ys else y ∷ rest

  abbrev pub sort_before : (A → A → Bool) → List A → List A
  sort_before before [] = []
  sort_before before (x ∷ xs) = insert_before before x (sort_before before xs)

  -- LIMIT n
  abbrev pub limit : ℕ → List A → List A
  limit zero xs = []
  limit (suc n) [] = []
  limit (suc n) (x ∷ xs) = x ∷ limit n xs

  -- OFFSET n
  abbrev pub offset : ℕ → List A → List A
  offset zero xs = xs
  offset (suc n) [] = []
  offset (suc n) (x ∷ xs) = offset n xs

  -- The row at a position, and the others.
  abbrev pub pull : ℕ → List A → Option (A × List A)
  pull n [] = none
  pull zero (x ∷ xs) = some (x, xs)
  pull (suc n) (x ∷ xs) = elim (pull n xs) [ none ↦ none | some (y, ys) ↦ some (y, x ∷ ys) ]

  -- ORDER BY RANDOM(): every order of the rows is that of some number.
  abbrev pub shuffle_from : ℕ → ℕ → List A → List A
  shuffle_from zero pick xs = []
  shuffle_from (suc fuel) pick xs = elim (pull (pick % length xs) xs) [
    | none ↦ []
    | some (y, ys) ↦ y ∷ shuffle_from fuel (pick / length xs) ys
  ]

  abbrev pub shuffle : ℕ → List A → List A
  shuffle pick xs = shuffle_from (length xs) pick xs

  -- SELECT MAX(key) … WHERE
  abbrev pub max_where : (A → Bool) → (A → ℕ) → List A → Option ℕ
  max_where p key [] = none
  max_where p key (x ∷ xs) =
      let rest = max_where p key xs in
      if p x
      then some (elim rest [ none ↦ key x | some m ↦ if leb m (key x) then key x else m ])
      else rest

  -- Every row of a table has the property.
  abbrev pub All {κ} : (A → Type κ) → List A → Type κ
  All P [] = Unit
  All P (x ∷ xs) = P x × All P xs

  pub select-append :
      (p : A → Bool) (xs ys : List A) → select p (xs ++ ys) ≡ select p xs ++ select p ys
  select-append p [] ys = refl
  select-append p (x ∷ xs) ys = ground (arith, select-append p xs ys)

  pub select-delete_where : (p : A → Bool) (xs : List A) → select p (delete_where p xs) ≡ []
  select-delete_where p [] = refl
  select-delete_where p (x ∷ xs) = ground (arith, select-delete_where p xs)

-- A row that is found before an update that keeps the test is found after it.
module _ {ℓ} {A : Type ℓ} (p q : A → Bool) (f : A → A) where
  pub first_where-update :
      (xs : List A) (x : A)
      → ((y : A) → p (f y) ≡ p y)
      → first_where p xs ≡ some x
      → first_where p (update_where q f xs) ≡ some (if q x then f x else x)
  first_where-update [] x same h = cc
  first_where-update (y ∷ ys) x same h = ground (arith, same y, first_where-update ys x same)

pub first_where-holds {ℓ} :
    {A : Type ℓ} (p : A → Bool) (xs : List A) (y : A) → first_where p xs ≡ some y → p y ≡ true
first_where-holds p [] y h = cc
first_where-holds p (x ∷ xs) y h = ground (arith, first_where-holds p xs y)
