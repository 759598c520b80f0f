-- ===== src/Store/Labels.antt =====
-- internal/store/scheduler.go: the archive label (month, year) of a round.
mod Pigeonhole
pub mod Search
use piecesoflife.Prelude.{
  ℕ, zero, suc, ◌+◌, ◌-◌, ◌/◌, ◌%◌, Bool, true, false, not, ◌&&◌, ◌==◌, exists_where,
}
use piecesoflife.Store.Rows.{Db, Issue}
use piecesoflife.Store.Exec.{
  Result, ok, Exec, no_free_label, pure, raise, query, query_write, ◌>>=◌,
}

-- The row querier: `query` for the read pool, `query_write` for a transaction.
abbrev pub RowQuerier : Type 0
RowQuerier = (Db → Result Bool) → Exec Bool

-- Months count from 1, as Go's time.Month does.
abbrev pub label_month : ℕ → ℕ → ℕ
label_month base_month offset = (base_month - 1 + offset) % 12 + 1

abbrev pub label_year : ℕ → ℕ → ℕ → ℕ
label_year base_month base_year offset = base_year + (base_month - 1 + offset) / 12

-- group_id = ? AND month = ? AND year = ? AND id != ?
abbrev pub claims : ℕ → ℕ → ℕ → ℕ → Issue → Bool
claims group_id exclude_id month year iss =
    iss.group_id == group_id && iss.month == month && iss.year == year && not (iss.id == exclude_id)

-- Does another issue of the group carry the label at this offset?
abbrev pub is_taken : ℕ → ℕ → ℕ → ℕ → ℕ → Db → Bool
is_taken group_id exclude_id base_month base_year offset db =
    exists_where
      (claims group_id exclude_id (label_month base_month offset)
        (label_year base_month base_year offset))
      db.issues

-- The loop, with the rounds that are left.
unfoldable pub label_walk : RowQuerier → ℕ → ℕ → ℕ → ℕ → ℕ → ℕ → Exec (ℕ × ℕ)
label_walk q group_id exclude_id base_month base_year zero offset = raise no_free_label
label_walk q group_id exclude_id base_month base_year (suc left) offset =
    q (λ db. ok (is_taken group_id exclude_id base_month base_year offset db)) >>= λ taken.
    elim taken [
      | true ↦ label_walk q group_id exclude_id base_month base_year left (offset + 1)
      | false ↦ pure (label_month base_month offset, label_year base_month base_year offset)
    ]

unfoldable pub next_available_label : RowQuerier → ℕ → ℕ → ℕ → ℕ → Exec (ℕ × ℕ)
next_available_label q group_id exclude_id base_month base_year =
    label_walk q group_id exclude_id base_month base_year 1200 0

unfoldable pub next_available_issue_label : ℕ → ℕ → ℕ → ℕ → Exec (ℕ × ℕ)
next_available_issue_label = next_available_label query

unfoldable pub next_available_issue_label_tx : ℕ → ℕ → ℕ → ℕ → Exec (ℕ × ℕ)
next_available_issue_label_tx = next_available_label query_write
