-- ===== src/Store/Members/Roles.antt =====
-- internal/store/membership.go: what an invitation does to a membership.
use piecesoflife.Prelude.{
  ℕ, ◌≡◌, refl, sym, subst, ◌∙◌, Bool, true, false, ◌||◌, Option, none, some, List, [], ◌∷◌, ◌++◌,
  arith, ==_refl, first_where, exists_where, update_where, first_where-update, first_where-holds,
  Bool-cases, inl, inr,
}
use piecesoflife.Store.Rows.{Db}
use piecesoflife.Store.Tables.{Membership, Role, is_admin}
use piecesoflife.Store.Exec.{ok, World}
use piecesoflife.Store.Exec.Inversion.{exec_ok}
use piecesoflife.Store.Members.{
  is_membership, rejoin, add_membership, with_memberships, upsert_membership, create_membership,
}

module _ (group_id user_id : ℕ) where
  abbrev membership_of : Db → Option Membership
  membership_of db = first_where (is_membership group_id user_id) db.content.memberships

  abbrev is_admin_membership : Option Membership → Bool
  is_admin_membership none = false
  is_admin_membership (some m) = is_admin m.role

  -- The user is an admin of the group, active or not.
  abbrev pub was_admin : Db → Bool
  was_admin db = is_admin_membership (membership_of db)

  absent :
      {A : Type 0} (p : A → Bool) (xs : List A)
      → exists_where p xs ≡ false
      → first_where p xs ≡ none
  absent p [] h = refl
  absent p (x ∷ xs) h = ground (arith, h, absent p xs)

  present :
      {A : Type 0} (p : A → Bool) (xs : List A)
      → exists_where p xs ≡ true
      → (x : A) × (first_where p xs ≡ some x)
  present p [] h = cc
  present p (x ∷ xs) h = elim (Bool-cases (p x)) [
    | inl e ↦ (x, rw e refl)
    | inr e ↦ let (y, is) = present p xs (ground (arith, h, e)) in (y, rw e is)
  ]

  appended :
      {A : Type 0} (p : A → Bool) (xs : List A) (y : A)
      → exists_where p xs ≡ false
      → p y ≡ true
      → first_where p (xs ++ y ∷ []) ≡ some y
  appended p [] y h e = ground arith
  appended p (x ∷ xs) y h e = ground (arith, h, e, appended p xs y)

  -- The membership is there and active, and the role only went up.
  abbrev pub IsRaised : Role → Db → Db → Type 0
  IsRaised role d e =
      (m : Membership) × (membership_of e ≡ some m)
      × (m.is_active ≡ true)
      × (is_admin m.role ≡ (was_admin d || is_admin role))

  rejoined-IsRaised :
      (role : Role) (d : Db) (m : Membership)
      → membership_of d ≡ some m
      → IsRaised role d (
          with_memberships
            (update_where (is_membership group_id user_id) (rejoin role) d.content.memberships)
            d)
  rejoined-IsRaised role d m is =
      let hit = first_where-holds (is_membership group_id user_id) d.content.memberships m is in
      let found =
        first_where-update (is_membership group_id user_id) (is_membership group_id user_id)
          (rejoin role) d.content.memberships m (λ y. refl) is in
      (rejoin role m, found ∙ rw hit refl, refl, ground (arith, is))

  added-IsRaised :
      (role : Role) (d : Db)
      → exists_where (is_membership group_id user_id) d.content.memberships ≡ false
      → IsRaised role d (add_membership group_id user_id role d)
  added-IsRaised role d free = (
    _,
    appended (is_membership group_id user_id) d.content.memberships _ free
        (ground (arith, ==_refl group_id, ==_refl user_id)),
    refl,
    rw (absent (is_membership group_id user_id) d.content.memberships free) refl,
  )

  upsert-IsRaised :
      (role : Role) (d e : Db)
      → upsert_membership group_id user_id role d ≡ ok (tt, e)
      → IsRaised role d e
  unfolding upsert_membership
  upsert-IsRaised role d e h =
      elim (Bool-cases (exists_where (is_membership group_id user_id) d.content.memberships)) [
        | inl there ↦
            let (m, is) = present (is_membership group_id user_id) d.content.memberships there in
            let new : with_memberships
                  (update_where (is_membership group_id user_id) (rejoin role)
                    d.content.memberships)
                  d
                ≡ e =
              ground (arith, h, there) in
            subst (IsRaised role d) new (rejoined-IsRaised role d m is)
        | inr free ↦
            let new : add_membership group_id user_id role d ≡ e = ground (arith, h, free) in
            subst (IsRaised role d) new (added-IsRaised role d free)
      ]

-- After an invitation that returns no error the user has an active membership of the group, which is
-- an admin's exactly if the invitation is to an admin or the user was an admin of the group before,
-- active or not: a second invitation demotes nobody.
pub invitation-IsRaised :
    (group_id user_id : ℕ) (role : Role) (w : World)
    → (create_membership group_id user_id role w).0 ≡ ok tt
    → IsRaised group_id user_id role w.db (create_membership group_id user_id role w).1.db
unfolding create_membership
invitation-IsRaised group_id user_id role w h =
    let (d, did, after) = exec_ok (upsert_membership group_id user_id role) w h in
    subst (IsRaised group_id user_id role w.db) (sym after)
      (upsert-IsRaised group_id user_id role w.db d did)
