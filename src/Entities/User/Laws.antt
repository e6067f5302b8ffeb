-- ===== src/Entities/User/Laws.antt =====
-- What a user may do, the strings that go into an access token, and the life of an account.
use financial_data.Prelude.{
  ◌&&◌, not, ℕ, ◌≡◌, refl, sym, ◌∙◌, Bool, true, false, ◌||◌, List, [], ◌∷◌, ◌==◌, any, arith,
  Bool-cases, inl, inr, All,
}
use financial_data.Text.{Text, text_in}
use financial_data.Text.Sets.{union, text_in-union}
use financial_data.Result.{ok, err, value_error, already_deleted, deleted_not_activatable}
use financial_data.Entities.Enums.{UserStatus}
use financial_data.Entities.Ids.{
  has_id, DistinctIds, DistinctIds-append, DistinctIds-select, has_id-held, has_id-append,
  has_id-append_self, has_id-select,
}
use financial_data.Entities.Role
use financial_data.Entities.Role.{Role}
use financial_data.Entities.Role.Laws.{grants, has_permission-eq, text_in-get_permission_strings}
use financial_data.Entities.User.{
  User, is_active, activate, deactivate, soft_delete, has_permission, collect, get_all_permissions,
  assign_role, remove_role,
}

text_in-collect :
    (c : Text) (permissions : List Text) (roles : List Role)
    → text_in c (collect permissions roles)
      ≡ (text_in c permissions || any (λ r. grants c r.permissions) roles)
unfolding collect any
text_in-collect c permissions [] = ground arith
text_in-collect c permissions (r ∷ roles) =
    rw
      (
        text_in-collect c (union permissions (Role.get_permission_strings r)) roles,
        text_in-union c permissions (Role.get_permission_strings r),
        text_in-get_permission_strings r c,
      )
      (ground arith)

text_in_nil : (c : Text) → text_in c [] ≡ false
unfolding text_in
text_in_nil c = refl

-- The strings of a user are the codenames of all permissions of all roles, active or not.
pub text_in-get_all_permissions :
    (u : User) (c : Text)
    → text_in c (get_all_permissions u) ≡ any (λ r. grants c r.permissions) u.roles
unfolding get_all_permissions
text_in-get_all_permissions u c = rw (text_in-collect c [] u.roles, text_in_nil c) refl

-- A role that can grant anything at all.
abbrev pub IsLive : Role → Type 0
IsLive r = (r.is_active ≡ true) × (r.is_deleted ≡ false)

any-live :
    (c : Text) (roles : List Role)
    → All IsLive roles
    → any (λ r. Role.has_permission r c) roles ≡ any (λ r. grants c r.permissions) roles
unfolding any
any-live c [] h = refl
any-live c (r ∷ roles) h =
    ground (arith, has_permission-eq r c, text_in-get_permission_strings r c, any-live c roles h.1)

-- If all roles of a user are active and not deleted, the user's permission check agrees with the
-- strings that are put into the access token.
pub has_permission_of_live :
    (u : User) (c : Text)
    → All IsLive u.roles
    → has_permission u c ≡ text_in c (get_all_permissions u)
unfolding has_permission
has_permission_of_live u c h = any-live c u.roles h ∙ sym (text_in-get_all_permissions u c)

any-inactive :
    (c : Text) (roles : List Role)
    → All (λ r. r.is_active ≡ false) roles
    → any (λ r. Role.has_permission r c) roles ≡ false
unfolding any
any-inactive c [] h = refl
any-inactive c (r ∷ roles) h = ground (arith, has_permission-eq r c, any-inactive c roles h.1)

-- A user whose roles are all inactive has no permission, and yet every codename of those roles is
-- among the strings that are put into the access token.
pub token_ignores_is_active :
    (u : User) (c : Text)
    → All (λ r. r.is_active ≡ false) u.roles
    → any (λ r. grants c r.permissions) u.roles ≡ true
    → (has_permission u c ≡ false) × (text_in c (get_all_permissions u) ≡ true)
unfolding has_permission
token_ignores_is_active u c h g = (any-inactive c u.roles h, text_in-get_all_permissions u c ∙ g)

-- A deleted user is not active, cannot be activated or deleted again, and stays inactive when
-- deactivated.
deleted_user_final :
    (now by : ℕ) (u v : User)
    → soft_delete now by u ≡ ok v
    → (is_active v ≡ false)
      × (activate v ≡ err (value_error deleted_not_activatable))
      × ((later other : ℕ) → soft_delete later other v ≡ err (value_error already_deleted))
      × (is_active (deactivate v) ≡ false)
unfolding soft_delete is_active activate deactivate
deleted_user_final now by u v h =
    (ground arith, ground arith, (λ later other. ground arith), ground arith)

-- Activating and deactivating an account that is not deleted switch it on and off, and change
-- nothing but the status.
pub activate-deactivate :
    (u : User)
    → u.is_deleted ≡ false
    → (is_active (deactivate u) ≡ false)
      × (activate (deactivate u) ≡ ok (record u { status = UserStatus.active }))
      × (is_active (record u { status = UserStatus.active }) ≡ true)
unfolding is_active activate deactivate
activate-deactivate u h = (ground arith, ground arith, ground arith)

-- Whether the user lists a role of that identifier.
abbrev pub holds : ℕ → User → Bool
holds a u = has_id (λ (r : Role). r.id) a u.roles

-- Assigning a role to a user whose roles have distinct identifiers keeps them distinct, adds the
-- role's identifier and no other, and changes nothing the second time.
pub assign_role_lem :
    (u : User) (r : Role)
    → DistinctIds (λ (q : Role). q.id) u.roles
    → DistinctIds (λ (q : Role). q.id) (assign_role u r).roles
      × ((a : ℕ) → holds a (assign_role u r) ≡ (holds a u || r.id == a))
      × (assign_role (assign_role u r) r ≡ assign_role u r)
unfolding assign_role
assign_role_lem u r d = elim (Bool-cases (holds r.id u)) [
  | inl e ↦ rw e (d, (λ a. has_id-held (λ q. q.id) r u.roles a e), rw e)
  | inr e ↦ rw e (
    DistinctIds-append (λ q. q.id) u.roles r d e,
    (λ a. has_id-append (λ q. q.id) r u.roles a),
    rw (has_id-append_self (λ q. q.id) r u.roles),
  )
]

-- Removing a role takes away that identifier and no other, and keeps the identifiers distinct.
pub remove_role_lem :
    (u : User) (b : ℕ)
    → DistinctIds (λ (q : Role). q.id) u.roles
    → DistinctIds (λ (q : Role). q.id) (remove_role u b).roles
      × ((a : ℕ) → holds a (remove_role u b) ≡ (holds a u && not (a == b)))
unfolding remove_role
remove_role_lem u b d =
    (DistinctIds-select (λ q. q.id) b u.roles d, λ a. has_id-select (λ q. q.id) a b u.roles)
