-- ===== src/Store/Labels/Search.antt =====
-- The walk over labels finds the first free one, and finds one while there are fewer than 1200
-- issues.
use piecesoflife.Prelude.{
  ℕ, zero, suc, ◌+◌, ◌*◌, ◌==◌, ◌&&◌, not, subst, ◌≤◌, ◌<◌, ◌≡◌, refl, inl, inr, le-or-lt, Bool,
  true, false, arith, length, exists_where,
}
use piecesoflife.Store.Rows.{Db, Issue}
use piecesoflife.Store.Exec.{Result, ok, World, calm, view, pure, query, ◌>>=◌}
use piecesoflife.Store.Labels.{
  RowQuerier, label_month, label_year, is_taken, label_walk, next_available_label,
  next_available_issue_label,
}
use piecesoflife.Store.Labels.Pigeonhole.{taken-le-length, least_failure}

-- A querier that answers from `db` in the world `w`.
abbrev Answers : RowQuerier → Db → World → Type 0
Answers q db w = (s : Db → Result Bool) → q s w ≡ (s db, w)

module _ (q : RowQuerier) (db : Db) (w : World) (answers : Answers q db w)
    (group_id exclude_id base_month base_year : ℕ) where
  label_walk_lem :
      (left offset o : ℕ)
      → offset ≤ o
      → o < offset + left
      → is_taken group_id exclude_id base_month base_year o db ≡ false
      → ((k : ℕ)
          → offset ≤ k
          → k < o
          → is_taken group_id exclude_id base_month base_year k db ≡ true)
      → label_walk q group_id exclude_id base_month base_year left offset w
        ≡ (ok (label_month base_month o, label_year base_month base_year o), w)
  unfolding label_walk ◌>>=◌ pure
  label_walk_lem zero offset o h1 h2 free before = absurd (omega arith)
  label_walk_lem (suc left) offset o h1 h2 free before = elim (le-or-lt (offset + 1) o) [
    | inl more ↦
        rw (answers (λ d. ok (is_taken group_id exclude_id base_month base_year offset d))) (
          rw (before offset (omega arith) (omega arith)) (
            label_walk_lem left (offset + 1) o more (omega arith) free
              (λ k l1 l2. before k (omega arith) l2)))
    | inr here ↦
        let same : o ≡ offset = omega arith in
        rw (answers (λ d. ok (is_taken group_id exclude_id base_month base_year offset d)))
          (rw (← same) (rw free (rw same refl)))
  ]

  -- The first free offset below 1200 gives the label.
  next_available_label_lem :
      (o : ℕ)
      → o < 1200
      → is_taken group_id exclude_id base_month base_year o db ≡ false
      → ((k : ℕ) → k < o → is_taken group_id exclude_id base_month base_year k db ≡ true)
      → next_available_label q group_id exclude_id base_month base_year w
        ≡ (ok (label_month base_month o, label_year base_month base_year o), w)
  unfolding next_available_label
  next_available_label_lem o h free before =
      label_walk_lem 1200 0 o (omega arith) (omega arith) free (λ k l1 l2. before k l2)

-- A month of a calendar year, so many months after another.
pub record IsMonthAfter (base_month base_year offset month year : ℕ) : Type 0 where
  pub at_least : 1 ≤ month
  pub at_most : month ≤ 12
  pub months : year * 12 + month ≡ base_year * 12 + base_month + offset

-- Another issue of the group has this label.
abbrev pub carries : ℕ → ℕ → ℕ → ℕ → Issue → Bool
carries group_id exclude_id month year iss =
    iss.group_id == group_id && iss.month == month && iss.year == year && not (iss.id == exclude_id)

-- What a label search promises: the first month from the base month on whose label no other issue of
-- the group carries.
pub record FindsLabel (db : Db) (group_id exclude_id base_month base_year : ℕ) (label : ℕ × ℕ)
    : Type 0 where
  pub offset : ℕ
  pub is_label : IsMonthAfter base_month base_year offset label.0 label.1
  pub unclaimed : exists_where (carries group_id exclude_id label.0 label.1) db.issues ≡ false
  pub first :
      (k month year : ℕ)
      → k < offset
      → IsMonthAfter base_month base_year k month year
      → exists_where (carries group_id exclude_id month year) db.issues ≡ true

label-IsMonthAfter :
    (base_month base_year offset : ℕ)
    → 1 ≤ base_month
    → IsMonthAfter base_month base_year offset
        (label_month base_month offset)
        (label_year base_month base_year offset)
label-IsMonthAfter base_month base_year offset h = record {
  at_least = omega arith;
  at_most = omega (arith, h);
  months = omega (arith, h);
}

-- There is one such month.
IsMonthAfter-label :
    (base_month base_year k month year : ℕ)
    → 1 ≤ base_month
    → IsMonthAfter base_month base_year k month year
    → (label_month base_month k ≡ month) × (label_year base_month base_year k ≡ year)
IsMonthAfter-label base_month base_year k month year h m = (
  omega (arith, h, m.at_least, m.at_most, m.months),
  omega (arith, h, m.at_least, m.at_most, m.months),
)

next_available_label_total :
    (q : RowQuerier) (db : Db) (w : World)
    → Answers q db w
    → (group_id exclude_id base_month base_year : ℕ) → 1 ≤ base_month
    → length db.issues < 1200
    → (label : ℕ × ℕ) × (next_available_label q group_id exclude_id base_month base_year w
        ≡ (ok label, w))
      × FindsLabel db group_id exclude_id base_month base_year label
next_available_label_total q db w answers group_id exclude_id base_month base_year h few =
    elim (least_failure 1200 (λ o. is_taken group_id exclude_id base_month base_year o db)) [
      | inl (o, lt, free, before) ↦ (
        (label_month base_month o, label_year base_month base_year o),
        next_available_label_lem q db w answers group_id exclude_id base_month base_year o lt free
            before,
        record {
          offset = o;
          is_label = label-IsMonthAfter base_month base_year o h;
          unclaimed = free;
          first = λ k month year before_o m.
              let (same_month, same_year) =
                IsMonthAfter-label base_month base_year k month year h m in
              subst (λ y. exists_where (carries group_id exclude_id month y) db.issues ≡ true)
                same_year
                (subst
                  (λ x.
                    exists_where (carries group_id exclude_id x (label_year base_month base_year k))
                      db.issues
                    ≡ true)
                  same_month (before k before_o));
        },
      )
      | inr all ↦
          absurd
            (omega (arith, taken-le-length group_id exclude_id base_month base_year 1200 db all))
    ]

-- With fewer than 1200 issues stored and a healthy driver, the label walk ends with the month and year
-- of the first month, from the base month on, that no other issue of the group carries as its label,
-- by what the reader sees, and changes nothing. Months count from 1.
pub next_available_issue_label_total :
    (w : World) (group_id exclude_id base_month base_year : ℕ)
    → 1 ≤ base_month
    → length (view w).issues < 1200
    → (label : ℕ × ℕ) × (next_available_issue_label group_id exclude_id base_month base_year
          (calm w)
        ≡ (ok label, calm w))
      × FindsLabel (view w) group_id exclude_id base_month base_year label
unfolding next_available_issue_label query
next_available_issue_label_total w = next_available_label_total query (view w) (calm w) (λ s. refl)
