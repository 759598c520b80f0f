-- ===== src/Store/Responses/Tally.antt =====
-- internal/store/response.go: the numbers of a round's progress.
use piecesoflife.Prelude.{◌≤◌, ◌||◌, ◌≡◌, Bool, not, ◌&&◌, count_where, length}
use piecesoflife.Store.Rows.{Issue}
use piecesoflife.Store.Tables.{is_admin}
use piecesoflife.Store.Responses.Progress.{MemberProgress, SubmissionProgress}

-- Is this member counted, by the round's own flag?
abbrev pub is_counted : Issue → MemberProgress → Bool
is_counted iss m = iss.count_admin_in || not (is_admin m.role)

-- The numbers agree with the roster and with the round's row.
pub record IsSound (iss : Issue) (p : SubmissionProgress) : Type 0 where
  pub flag : p.count_admin_in ≡ iss.count_admin_in
  pub counted : p.total_members ≡ count_where (is_counted iss) p.members
  pub answered : p.responded ≡ count_where (λ m. is_counted iss m && m.responded) p.members
  pub no_more : p.responded ≤ p.total_members
  pub in_roster : p.total_members ≤ length p.members
