-- ===== src/Store/Questions/Sorted.antt =====
-- Rows with the positions of their ids in a list: sorting them gives the list back.
use piecesoflife.Prelude.{
  ℕ, suc, ◌≤◌, ◌<◌, ◌≡◌, refl, sym, ap, subst, ◌∙◌, Bool, true, false, ◌&&◌, List, [], ◌∷◌, map,
  arith, ◌==◌, ==→eq, exists_where, delete_where, insert_by, order_by, length, All, Bool-cases, inl,
  inr,
}
use piecesoflife.Prelude.Distinct.{Distinct, Distinct-delete}
use piecesoflife.Store.Tables.{Question}
use piecesoflife.Store.Questions.{check_unique_ids}

abbrev pub same_question : Question → Question → Bool
same_question x y = x.id == y.id

abbrev pub has_place : ℕ → ℕ → Question → Bool
has_place id i q = q.id == id && q.sort_order == i

-- Each id of the list has a row with the id's position.
abbrev pub Placed : ℕ → List ℕ → List Question → Type 0
Placed i [] rows = Unit
Placed i (id ∷ ids) rows = (exists_where (has_place id i) rows ≡ true) × Placed (suc i) ids rows

abbrev sorted : List Question → List Question
sorted rows = order_by (λ q. q.sort_order) rows

abbrev without : ℕ → List Question → List Question
without id rows = delete_where (λ q. q.id == id) rows

insert_by-All :
    (P : Question → Type 0) (q : Question) (rows : List Question)
    → P q
    → All P rows
    → All P (insert_by (λ q. q.sort_order) q rows)
insert_by-All P q [] h k = (h, tt)
insert_by-All P q (x ∷ xs) h k = ground (arith, insert_by-All P q xs h k.1)

order_by-All : (P : Question → Type 0) (rows : List Question) → All P rows → All P (sorted rows)
order_by-All P [] h = tt
order_by-All P (x ∷ xs) h = insert_by-All P x (sorted xs) h.0 (order_by-All P xs h.1)

insert_least :
    (q : Question) (rows : List Question)
    → All (λ x. q.sort_order < x.sort_order) rows
    → insert_by (λ q. q.sort_order) q rows ≡ q ∷ rows
insert_least q [] h = refl
insert_least q (x ∷ xs) h = ground arith

without_absent :
    (id : ℕ) (rows : List Question)
    → exists_where (λ q. q.id == id) rows ≡ false
    → without id rows ≡ rows
without_absent id [] h = refl
without_absent id (x ∷ xs) h = ground (arith, without_absent id xs)

place-exists :
    (id i : ℕ) (rows : List Question)
    → exists_where (has_place id i) rows ≡ true
    → exists_where (λ q. q.id == id) rows ≡ true
place-exists id i [] h = cc
place-exists id i (x ∷ xs) h = ground (arith, place-exists id i xs)

absent :
    (x : Question) (id : ℕ) (rows : List Question)
    → (x.id == id) ≡ true
    → exists_where (same_question x) rows ≡ false
    → exists_where (λ q. q.id == id) rows ≡ false
absent x id [] same free = refl
absent x id (y ∷ ys) same free = ground (arith, absent x id ys same)

-- `r` has the id and the position, and stands before the other rows.
abbrev First : ℕ → ℕ → List Question → Question → Type 0
First id i rows r = (r.id ≡ id) × (r.sort_order ≡ i) × (sorted rows ≡ r ∷ sorted (without id rows))

sorted_here :
    (id i : ℕ) (x : Question) (xs : List Question)
    → Distinct same_question (x ∷ xs)
    → exists_where (has_place id i) (x ∷ xs) ≡ true
    → All (λ q. i < q.sort_order) (without id (x ∷ xs))
    → (x.id == id) ≡ true
    → First id i (x ∷ xs) x
sorted_here id i x xs d e h same =
    let gone : exists_where (λ q. q.id == id) xs ≡ false = absent x id xs same d.0 in
    let at : x.sort_order ≡ i = ground (arith, place-exists id i xs, e, gone) in
    let rest : without id (x ∷ xs) ≡ xs = rw same (without_absent id xs gone) in
    let least : All (λ q. x.sort_order < q.sort_order) xs =
      rw at (subst (All (λ q. i < q.sort_order)) rest h) in
    let head =
      insert_least x (sorted xs) (order_by-All (λ q. x.sort_order < q.sort_order) xs least) in
    (==→eq x.id id same, at, head ∙ ap (λ l. x ∷ sorted l) (sym rest))

sorted_later :
    (id i : ℕ) (x : Question) (xs : List Question) (r : Question)
    → All (λ q. i < q.sort_order) (without id (x ∷ xs))
    → (x.id == id) ≡ false
    → First id i xs r
    → First id i (x ∷ xs) r
sorted_later id i x xs r h other first =
    let rest : without id (x ∷ xs) ≡ x ∷ without id xs = rw other refl in
    let above : All (λ q. i < q.sort_order) (x ∷ without id xs) =
      subst (All (λ q. i < q.sort_order)) rest h in
    let swap : insert_by (λ q. q.sort_order) x (r ∷ sorted (without id xs))
        ≡ r ∷ insert_by (λ q. q.sort_order) x (sorted (without id xs)) =
      ground (arith, above.0, first.1) in
    (
      first.0,
      first.1,
      ap (insert_by (λ q. q.sort_order) x) first.2 ∙ swap ∙ ap (λ l. r ∷ sorted l) (sym rest),
    )

-- The row of the first id, which stands before all others.
sorted-First :
    (id i : ℕ) (rows : List Question)
    → Distinct same_question rows
    → exists_where (has_place id i) rows ≡ true
    → All (λ q. i < q.sort_order) (without id rows)
    → (r : Question) × First id i rows r
sorted-First id i [] d e h = cc
sorted-First id i (x ∷ xs) d e h = elim (Bool-cases (x.id == id)) [
  | inl same ↦ (x, sorted_here id i x xs d e h same)
  | inr other ↦
      let above : All (λ q. i < q.sort_order) (x ∷ without id xs) = ground (arith, h, other) in
      let (r, first) = sorted-First id i xs d.1 (ground (arith, e, other)) above.1 in
      (r, sorted_later id i x xs r h other first)
]

length-without :
    (id i : ℕ) (rows : List Question)
    → Distinct same_question rows
    → exists_where (has_place id i) rows ≡ true
    → length rows ≡ suc (length (without id rows))
length-without id i [] d e = cc
length-without id i (x ∷ xs) d e = elim (Bool-cases (x.id == id)) [
  | inl same ↦
      rw same (ap (λ l. suc (length l)) (sym (without_absent id xs (absent x id xs same d.0))))
  | inr other ↦ ground (arith, length-without id i xs d.1, other, e)
]

place-without :
    (id k i : ℕ) (rows : List Question)
    → (k == id) ≡ false
    → exists_where (has_place k i) rows ≡ true
    → exists_where (has_place k i) (without id rows) ≡ true
place-without id k i [] h e = e
place-without id k i (x ∷ xs) h e = ground (arith, h, e, place-without id k i xs h)

Placed-without :
    (id i : ℕ) (ids : List ℕ) (rows : List Question)
    → exists_where (λ j. j == id) ids ≡ false
    → Placed i ids rows
    → Placed i ids (without id rows)
Placed-without id i [] rows h p = tt
Placed-without id i (k ∷ ks) rows h p = (
  place-without id k i rows (ground (arith, h)) p.0,
  Placed-without id (suc i) ks rows (ground (arith, h)) p.1,
)

weaken :
    (i : ℕ) (rows : List Question)
    → All (λ q. i < q.sort_order) rows
    → All (λ q. i ≤ q.sort_order) rows
weaken i [] h = tt
weaken i (x ∷ xs) h = (omega (arith, h.0), weaken i xs h.1)

above-without :
    (id i : ℕ) (rows : List Question)
    → Distinct same_question rows
    → exists_where (has_place id i) rows ≡ true
    → All (λ q. i < q.sort_order) (without id rows)
    → All (λ q. i ≤ q.sort_order) rows
above-without id i [] d e h = tt
above-without id i (x ∷ xs) d e h = elim (Bool-cases (x.id == id)) [
  | inl same ↦
      let gone : exists_where (λ q. q.id == id) xs ≡ false = absent x id xs same d.0 in
      let rest : without id (x ∷ xs) ≡ xs = rw same (without_absent id xs gone) in
      let at : x.sort_order ≡ i = ground (arith, place-exists id i xs, e, gone) in
      (omega (arith, at), weaken i xs (subst (All (λ q. i < q.sort_order)) rest h))
  | inr other ↦
      let above : All (λ q. i < q.sort_order) (x ∷ without id xs) = ground (arith, h, other) in
      (omega (arith, above.0), above-without id i xs d.1 (ground (arith, e, other)) above.1)
]

strict :
    (i : ℕ) (rows : List Question)
    → All (λ q. suc i ≤ q.sort_order) rows
    → All (λ q. i < q.sort_order) rows
strict i [] h = tt
strict i (x ∷ xs) h = (omega (arith, h.0), strict i xs h.1)

length-zero : (rows : List Question) → length rows ≡ 0 → rows ≡ []
length-zero [] h = refl
length-zero (x ∷ xs) h = absurd (omega (arith, h))

-- As many rows as ids, one for each: sorted, they are the list.
pub sorted-ids :
    (i : ℕ) (ids : List ℕ) (rows : List Question)
    → Distinct same_question rows
    → check_unique_ids ids ≡ true
    → length rows ≡ length ids
    → Placed i ids rows
    → (map (λ q. q.id) (sorted rows) ≡ ids) × All (λ q. i ≤ q.sort_order) rows
sorted-ids i [] rows d u l p = rw (length-zero rows l) (refl, tt)
sorted-ids i (id ∷ ids) rows d u l p =
    let unseen : exists_where (λ j. j == id) ids ≡ false = ground (arith, u) in
    let count : suc (length (without id rows)) ≡ suc (length ids) =
      sym (length-without id i rows d p.0) ∙ l in
    let (rest, above) =
      sorted-ids (suc i) ids (without id rows)
        (Distinct-delete same_question (λ q. q.id == id) rows d) (ground (arith, u))
        (omega (arith, count)) (Placed-without id (suc i) ids rows unseen p.1) in
    let (r, first) = sorted-First id i rows d p.0 (strict i (without id rows) above) in
    (
      ap (map (λ q. q.id)) first.2 ∙ ground (arith, first.0, rest),
      above-without id i rows d p.0 (strict i (without id rows) above),
    )
