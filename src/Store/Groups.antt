-- ===== src/Store/Groups.antt =====
-- internal/store/group.go and internal/store/setting.go: what the rounds read of a group.
use piecesoflife.Prelude.{ℕ, Bool, List, [], ◌∷◌, ◌++◌, ◌==◌, select, first_where, update_where}
use piecesoflife.Store.Rows.{Group, Settings}
use piecesoflife.Store.Exec.{ok, Exec, query, exec}
use piecesoflife.Store.Sql.{first_row}

abbrev pub is_group : ℕ → Group → Bool
is_group id g = g.id == id

unfoldable pub get_group : ℕ → Exec Group
get_group id = query (λ db. first_row (first_where (is_group id) db.groups))

unfoldable pub set_group_active : ℕ → Bool → Exec (Unit {0})
set_group_active id active = exec (λ db. ok (
  tt,
  record db {
    groups = update_where (is_group id) (λ g. record g { is_active = active }) db.groups;
  },
))

abbrev pub settings_of : ℕ → Settings → Bool
settings_of group_id st = st.group_id == group_id

unfoldable pub get_settings : ℕ → Exec Settings
get_settings group_id = query (λ db. first_row (first_where (settings_of group_id) db.settings))

-- What the sweep over all Loops reads of each.
pub record GroupOverview : Type 0 where
  pub id : ℕ
  pub is_active : Bool
  pub setup_complete : Bool

abbrev pub overview : Group → Settings → GroupOverview
overview g st = record { id = g.id; is_active = g.is_active; setup_complete = st.setup_complete }

abbrev pub join_settings : Group → List Settings → List GroupOverview
join_settings g [] = []
join_settings g (st ∷ rest) = overview g st ∷ join_settings g rest

-- groups JOIN settings, in the order of the groups' ids
abbrev pub overviews : List Group → List Settings → List GroupOverview
overviews [] settings = []
overviews (g ∷ gs) settings =
    join_settings g (select (settings_of g.id) settings) ++ overviews gs settings

unfoldable pub list_group_overviews : Exec (List GroupOverview)
list_group_overviews = query (λ db. ok (overviews db.groups db.settings))
