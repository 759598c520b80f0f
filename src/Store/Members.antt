-- ===== src/Store/Members.antt =====
-- internal/store/membership.go, user.go and notification.go: users, the Loops they belong to, and
-- what they want to be mailed.
pub mod Roles
use Prim.Native.String.{compare}
use text.Mathlib.Text.{◌==◌ as same_text, is_le}
use piecesoflife.Prelude.{
  ℕ, suc, String, Bool, true, false, ◌&&◌, Option, none, some, List, [], ◌∷◌, ◌++◌, ◌==◌,
  if◌then◌else◌, update_where, exists_where, count_where, first_where, select, sort_before,
}
use piecesoflife.Store.Rows.{Db, Group}
use piecesoflife.Store.Tables.{User, Membership, NotificationPreferences, Role, admin, is_admin}
use piecesoflife.Store.Exec.{
  Result, ok, err, Exec, unique_violation, foreign_key_violation, pure, query, exec, ◌>>=◌,
}
use piecesoflife.Store.Sql.{first_row}
use piecesoflife.Store.Questions.Defaults.{expect_row}

abbrev pub is_membership : ℕ → ℕ → Membership → Bool
is_membership group_id user_id m = m.group_id == group_id && m.user_id == user_id

unfoldable pub get_membership : ℕ → ℕ → Exec Membership
get_membership group_id user_id =
    query (λ db. first_row (first_where (is_membership group_id user_id) db.content.memberships))

abbrev pub with_memberships : List Membership → Db → Db
with_memberships rows db = record db { content = record db.content { memberships = rows } }

-- ON CONFLICT(group_id, user_id) DO UPDATE
abbrev pub rejoin : Role → Membership → Membership
rejoin role m = record m { role = if is_admin m.role then admin else role; is_active = true }

abbrev pub add_membership : ℕ → ℕ → Role → Db → Db
add_membership group_id user_id role db = record db {
  content = record db.content {
    memberships =
        db.content.memberships
        ++ record {
          id = suc db.content.membership_seq;
          group_id = group_id;
          user_id = user_id;
          role = role;
          is_active = true;
        }
          ∷ [];
    membership_seq = suc db.content.membership_seq;
  };
}

unfoldable pub upsert_membership : ℕ → ℕ → Role → Db → Result (Unit {0} × Db)
upsert_membership group_id user_id role db =
    if exists_where (is_membership group_id user_id) db.content.memberships
    then ok (
      tt,
      with_memberships
          (update_where (is_membership group_id user_id) (rejoin role) db.content.memberships) db,
    )
    else if exists_where (λ (g : Group). g.id == group_id) db.groups
        && exists_where (λ (u : User). u.id == user_id) db.users
    then ok (tt, add_membership group_id user_id role db)
    else err foreign_key_violation

unfoldable pub create_membership : ℕ → ℕ → Role → Exec (Unit {0})
create_membership group_id user_id role = exec (upsert_membership group_id user_id role)

unfoldable pub update_memberships :
    (Membership → Bool) → (Membership → Membership) → Db → Result (ℕ × Db)
update_memberships p f db = ok (
  count_where p db.content.memberships,
  with_memberships (update_where p f db.content.memberships) db,
)

unfoldable pub set_membership_role : ℕ → ℕ → Role → Exec (Unit {0})
set_membership_role group_id user_id role = do
  n ← exec (update_memberships (is_membership group_id user_id) (λ m. record m { role = role }))
  expect_row n

unfoldable pub set_membership_active : ℕ → ℕ → Bool → Exec (Unit {0})
set_membership_active group_id user_id active = do
  n ←
      exec
        (update_memberships (is_membership group_id user_id) (λ m. record m { is_active = active }))
  expect_row n

-- A user seen through one group.
pub record GroupMember : Type 0 where
  pub user : User
  pub role : Role
  pub member_active : Bool

abbrev pub is_effective : GroupMember → Bool
is_effective m = m.member_active && m.user.is_active

abbrev pub join_user : Membership → Option User → List GroupMember
join_user m none = []
join_user m (some u) = record { user = u; role = m.role; member_active = m.is_active } ∷ []

abbrev pub is_user : ℕ → User → Bool
is_user id u = u.id == id

-- memberships JOIN users WHERE m.group_id = ?
abbrev pub group_member_select : ℕ → List User → List Membership → List GroupMember
group_member_select group_id users [] = []
group_member_select group_id users (m ∷ ms) =
    let rest = group_member_select group_id users ms in
    if m.group_id == group_id
    then join_user m (first_where (is_user m.user_id) users) ++ rest
    else rest

-- ORDER BY u.name
abbrev pub by_name : List GroupMember → List GroupMember
by_name = sort_before (λ x y. is_le (compare x.user.name y.user.name))

abbrev pub group_members : ℕ → Db → List GroupMember
group_members group_id db = group_member_select group_id db.users db.content.memberships

unfoldable pub list_group_members : ℕ → Exec (List GroupMember)
list_group_members group_id = query (λ db. ok (by_name (group_members group_id db)))

unfoldable pub list_active_group_members : ℕ → Exec (List GroupMember)
list_active_group_members group_id =
    query (λ db. ok (by_name (select is_effective (group_members group_id db))))

unfoldable pub get_user_by_id : ℕ → Exec User
get_user_by_id id = query (λ db. first_row (first_where (is_user id) db.users))

abbrev pub has_email : String → User → Bool
has_email email u = same_text u.email email

unfoldable pub get_user_by_email : String → Exec User
get_user_by_email email = query (λ db. first_row (first_where (has_email email) db.users))

abbrev pub new_user : Db → String → String → User
new_user db name email = record {
  id = suc db.user_seq;
  name = name;
  email = email;
  avatar_url = none;
  bio = none;
  is_active = true;
  last_group_id = none;
}

-- email TEXT UNIQUE
unfoldable pub insert_user : String → String → Db → Result (ℕ × Db)
insert_user name email db =
    if exists_where (has_email email) db.users
    then err unique_violation
    else ok (
      suc db.user_seq,
      record db { users = db.users ++ new_user db name email ∷ []; user_seq = suc db.user_seq },
    )

unfoldable pub create_user : String → String → Exec ℕ
create_user name email = exec (insert_user name email)

abbrev pub update_users : (User → Bool) → (User → User) → Db → Result (Unit {0} × Db)
update_users p f db = ok (tt, record db { users = update_where p f db.users })

unfoldable pub update_user : ℕ → String → Option String → Option String → Exec (Unit {0})
update_user id name avatar_url bio =
    exec (
      update_users (is_user id) (λ u. record u { name = name; avatar_url = avatar_url; bio = bio }))

unfoldable pub set_user_name : ℕ → String → Exec (Unit {0})
set_user_name id name = exec (update_users (is_user id) (λ u. record u { name = name }))

unfoldable pub reactivate_user : ℕ → Exec (Unit {0})
reactivate_user id = exec (update_users (is_user id) (λ u. record u { is_active = true }))

-- users.last_group_id REFERENCES groups(id)
unfoldable pub move_user : ℕ → ℕ → Db → Result (Unit {0} × Db)
move_user user_id group_id db =
    if exists_where (is_user user_id) db.users
    then if exists_where (λ (g : Group). g.id == group_id) db.groups
      then update_users (is_user user_id) (λ u. record u { last_group_id = some group_id }) db
      else err foreign_key_violation
    else ok (tt, db)

unfoldable pub set_last_group : ℕ → ℕ → Exec (Unit {0})
set_last_group user_id group_id = exec (move_user user_id group_id)

abbrev pub preferences_of : ℕ → NotificationPreferences → Bool
preferences_of user_id p = p.user_id == user_id

unfoldable pub get_notification_preferences : ℕ → Exec NotificationPreferences
get_notification_preferences user_id =
    query (λ db. first_row (first_where (preferences_of user_id) db.content.preferences))

abbrev pub with_preferences : List NotificationPreferences → Db → Db
with_preferences rows db = record db { content = record db.content { preferences = rows } }

abbrev pub default_preferences : ℕ → NotificationPreferences
default_preferences user_id = record {
  user_id = user_id;
  issue_open = true;
  reminders = true;
  published = true;
  comment_notify = true;
}

abbrev pub insert_preferences : NotificationPreferences → Db → Result (Unit {0} × Db)
insert_preferences prefs db =
    if exists_where (is_user prefs.user_id) db.users
    then ok (tt, with_preferences (db.content.preferences ++ prefs ∷ []) db)
    else err foreign_key_violation

-- ON CONFLICT(user_id) DO UPDATE
unfoldable pub upsert_preferences : NotificationPreferences → Db → Result (Unit {0} × Db)
upsert_preferences prefs db =
    if exists_where (preferences_of prefs.user_id) db.content.preferences
    then ok (
      tt,
      with_preferences
          (update_where (preferences_of prefs.user_id) (λ p. prefs) db.content.preferences) db,
    )
    else insert_preferences prefs db

unfoldable pub upsert_notification_preferences : NotificationPreferences → Exec (Unit {0})
upsert_notification_preferences prefs = exec (upsert_preferences prefs)

-- INSERT OR IGNORE
unfoldable pub ensure_preferences : ℕ → Db → Result (Unit {0} × Db)
ensure_preferences user_id db =
    if exists_where (preferences_of user_id) db.content.preferences
    then ok (tt, db)
    else insert_preferences (default_preferences user_id) db

unfoldable pub ensure_notification_preferences : ℕ → Exec (Unit {0})
ensure_notification_preferences user_id = exec (ensure_preferences user_id)
