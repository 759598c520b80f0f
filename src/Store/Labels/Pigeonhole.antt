-- ===== src/Store/Labels/Pigeonhole.antt =====
-- One issue claims at most one offset of the walk over labels, so that among more offsets than
-- there are issues one is free.
use piecesoflife.Prelude.{
  ℕ, zero, suc, ◌+◌, ◌≤◌, ◌<◌, ◌≡◌, refl, ◌⊎◌, inl, inr, Bool, true, false, ◌||◌, List, [], ◌∷◌,
  arith, if◌then◌else◌, Bool-cases, le-or-lt, length, exists_where,
}
use mathlib.Core.Path.{subst}
use piecesoflife.Store.Rows.{Db, Issue}
use piecesoflife.Store.Labels.{label_month, label_year, claims, is_taken}

-- How many numbers below `n` pass the test.
count_below : ℕ → (ℕ → Bool) → ℕ
count_below zero p = 0
count_below (suc n) p = (if p n then 1 else 0) + count_below n p

count_below-or :
    (n : ℕ) (p q : ℕ → Bool) → count_below n (λ o. p o || q o) ≤ count_below n p + count_below n q
unfolding count_below
count_below-or zero p q = omega arith
count_below-or (suc n) p q = ground (arith, count_below-or n p q)

count_below-all : (n : ℕ) (p : ℕ → Bool) → ((o : ℕ) → o < n → p o ≡ true) → count_below n p ≡ n
unfolding count_below
count_below-all zero p h = refl
count_below-all (suc n) p h =
    ground (arith, h n (omega arith), count_below-all n p (λ o k. h o (omega arith)))

count_below-none : (n : ℕ) (p : ℕ → Bool) → ((o : ℕ) → o < n → p o ≡ false) → count_below n p ≡ 0
unfolding count_below
count_below-none zero p h = refl
count_below-none (suc n) p h =
    ground (arith, h n (omega arith), count_below-none n p (λ o k. h o (omega arith)))

count_below_unique :
    (n : ℕ) (p : ℕ → Bool) → ((a b : ℕ) → p a ≡ true → p b ≡ true → a ≡ b) → count_below n p ≤ 1
unfolding count_below
count_below_unique zero p h = omega arith
count_below_unique (suc n) p h = elim (Bool-cases (p n)) [
  | inl e ↦ ground (arith, count_below-none n p (below e))
  | inr e ↦ ground (arith, count_below_unique n p h)
]
  where
    below : p n ≡ true → (o : ℕ) → o < n → p o ≡ false
    below e o k = elim (Bool-cases (p o)) [ inl f ↦ absurd (omega (arith, h o n f e)) | inr f ↦ f ]

module _ (group_id exclude_id base_month base_year : ℕ) where
  abbrev claims_at : Issue → ℕ → Bool
  claims_at iss o =
      claims group_id exclude_id (label_month base_month o) (label_year base_month base_year o) iss

  claims_at_unique :
      (iss : Issue) (a b : ℕ) → claims_at iss a ≡ true → claims_at iss b ≡ true → a ≡ b
  claims_at_unique iss a b h k = ground arith

  count_taken :
      (n : ℕ) (issues : List Issue)
      → count_below n (λ o. exists_where (λ iss. claims_at iss o) issues) ≤ length issues
  count_taken n [] = omega (arith, count_below-none n (λ o. false) (λ o k. refl))
  count_taken n (iss ∷ issues) = omega (
    arith,
    count_below-or n (claims_at iss) (λ o. exists_where (λ i. claims_at i o) issues),
    count_below_unique n (claims_at iss) (claims_at_unique iss),
    count_taken n issues,
  )

  pub taken-le-length :
      (n : ℕ) (db : Db)
      → ((o : ℕ) → o < n → is_taken group_id exclude_id base_month base_year o db ≡ true)
      → n ≤ length db.issues
  taken-le-length n db h = omega (
    arith,
    count_taken n db.issues,
    count_below-all n (λ o. is_taken group_id exclude_id base_month base_year o db) h,
  )

-- The least number below `n` that fails the test, if there is one.
pub least_failure :
    (n : ℕ) (p : ℕ → Bool)
    → ((o : ℕ) × (o < n) × (p o ≡ false) × ((k : ℕ) → k < o → p k ≡ true))
      ⊎ ((o : ℕ) → o < n → p o ≡ true)
least_failure zero p = inr (λ o h. absurd (omega arith))
least_failure (suc n) p = elim (least_failure n p) [
  | inl (o, lt, f, before) ↦ inl (o, omega arith, f, before)
  | inr all ↦ elim (Bool-cases (p n)) [
    | inl e ↦ inr (λ o h. elim (le-or-lt n o) [
      | inl q ↦ subst (λ k. p k ≡ true) (let same : n ≡ o = omega arith in same) e
      | inr q ↦ all o q
    ])
    | inr e ↦ inl (n, omega arith, e, all)
  ]
]
