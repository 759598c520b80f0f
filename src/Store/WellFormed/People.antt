-- ===== src/Store/WellFormed/People.antt =====
-- The operations on members and users leave the tables of the rounds well-formed.
use piecesoflife.Prelude.{ℕ, String, Bool, Option}
use piecesoflife.Store.Exec.Respects.{Respects}
use piecesoflife.Store.WellFormed.{KeepsForm, beside_rules}
use piecesoflife.Store.Tables.{Role, NotificationPreferences}
use piecesoflife.Store.Members.{
  create_membership, upsert_membership, set_membership_role, update_memberships,
  set_membership_active, create_user, insert_user, update_user, set_user_name, reactivate_user,
  set_last_group, move_user, upsert_notification_preferences, upsert_preferences,
  ensure_notification_preferences, ensure_preferences,
}
use piecesoflife.Store.Questions.Defaults.{expect_row}

pub create_membership-Respects :
    (a : ℕ) (b : ℕ) (c : Role) → Respects KeepsForm (create_membership a b c)
unfolding create_membership upsert_membership
create_membership-Respects a b c = search beside_rules depth 12

pub set_membership_role-Respects :
    (a : ℕ) (b : ℕ) (c : Role) → Respects KeepsForm (set_membership_role a b c)
unfolding set_membership_role update_memberships expect_row
set_membership_role-Respects a b c = search beside_rules depth 12

pub set_membership_active-Respects :
    (a : ℕ) (b : ℕ) (c : Bool) → Respects KeepsForm (set_membership_active a b c)
unfolding set_membership_active update_memberships expect_row
set_membership_active-Respects a b c = search beside_rules depth 12

pub create_user-Respects : (a : String) (b : String) → Respects KeepsForm (create_user a b)
unfolding create_user insert_user
create_user-Respects a b = search beside_rules depth 12

pub update_user-Respects :
    (a : ℕ) (b : String) (c : Option String) (d : Option String)
    → Respects KeepsForm (update_user a b c d)
unfolding update_user
update_user-Respects a b c d = search beside_rules depth 12

pub set_user_name-Respects : (a : ℕ) (b : String) → Respects KeepsForm (set_user_name a b)
unfolding set_user_name
set_user_name-Respects a b = search beside_rules depth 12

pub reactivate_user-Respects : (a : ℕ) → Respects KeepsForm (reactivate_user a)
unfolding reactivate_user
reactivate_user-Respects a = search beside_rules depth 12

pub set_last_group-Respects : (a : ℕ) (b : ℕ) → Respects KeepsForm (set_last_group a b)
unfolding set_last_group move_user
set_last_group-Respects a b = search beside_rules depth 12

pub upsert_notification_preferences-Respects :
    (a : NotificationPreferences) → Respects KeepsForm (upsert_notification_preferences a)
unfolding upsert_notification_preferences upsert_preferences
upsert_notification_preferences-Respects a = search beside_rules depth 12

pub ensure_notification_preferences-Respects :
    (a : ℕ) → Respects KeepsForm (ensure_notification_preferences a)
unfolding ensure_notification_preferences ensure_preferences
ensure_notification_preferences-Respects a = search beside_rules depth 12
