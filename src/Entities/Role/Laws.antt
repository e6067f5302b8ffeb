-- ===== src/Entities/Role/Laws.antt =====
-- What a role grants, and that granting and taking away change just that.
use financial_data.Prelude.{
  ℕ, ◌≡◌, ap, ◌∙◌, Bool, not, ◌||◌, ◌&&◌, List, map, ◌==◌, any, any-map, arith, Bool-cases, inl,
  inr,
}
use mathlib.Core.Path.{fun_ext}
use financial_data.Text.{Text, text_eq, text_in}
use financial_data.Text.Laws.{text_eq_comm}
use financial_data.Text.Sets.{text_in-to_set}
use financial_data.Entities.Permission.{Permission, codename}
use financial_data.Entities.Ids.{
  has_id, DistinctIds, DistinctIds-append, DistinctIds-select, has_id-held, has_id-append,
  has_id-append_self, has_id-select,
}
use financial_data.Entities.Role.{
  Role, has_permission, get_permission_strings, assign_permission, remove_permission,
}

-- Whether some permission of the list has the codename.
abbrev pub grants : Text → List Permission → Bool
grants c permissions = any (λ p. text_eq (codename p) c) permissions

-- The strings of a role are the codenames of its permissions, whether it is active or not.
pub text_in-get_permission_strings :
    (r : Role) (c : Text) → text_in c (get_permission_strings r) ≡ grants c r.permissions
unfolding get_permission_strings text_in
text_in-get_permission_strings r c =
    text_in-to_set c (map codename r.permissions)
    ∙ any-map (text_eq c) codename r.permissions
    ∙ ap (λ f. any f r.permissions) (fun_ext λ p. text_eq_comm c (codename p))

-- A role has a permission exactly when it is active, not deleted, and its strings have the codename.
pub has_permission-eq :
    (r : Role) (c : Text)
    → has_permission r c ≡ (r.is_active && not r.is_deleted && text_in c (get_permission_strings r))
unfolding has_permission
has_permission-eq r c = rw (text_in-get_permission_strings r c) (ground arith)

-- Whether the role lists a permission of that identifier.
abbrev pub holds : ℕ → Role → Bool
holds a r = has_id (λ (p : Permission). p.id) a r.permissions

-- Assigning a permission to a role whose permissions have distinct identifiers keeps them distinct, adds
-- the permission's identifier and no other, and changes nothing the second time.
pub assign_permission_lem :
    (r : Role) (p : Permission)
    → DistinctIds (λ (q : Permission). q.id) r.permissions
    → DistinctIds (λ (q : Permission). q.id) (assign_permission r p).permissions
      × ((a : ℕ) → holds a (assign_permission r p) ≡ (holds a r || p.id == a))
      × (assign_permission (assign_permission r p) p ≡ assign_permission r p)
unfolding assign_permission
assign_permission_lem r p d = elim (Bool-cases (holds p.id r)) [
  | inl e ↦ rw e (d, (λ a. has_id-held (λ q. q.id) p r.permissions a e), rw e)
  | inr e ↦ rw e (
    DistinctIds-append (λ q. q.id) r.permissions p d e,
    (λ a. has_id-append (λ q. q.id) p r.permissions a),
    rw (has_id-append_self (λ q. q.id) p r.permissions),
  )
]

-- Removing takes away that identifier and no other, and keeps the identifiers distinct.
pub remove_permission_lem :
    (r : Role) (b : ℕ)
    → DistinctIds (λ (q : Permission). q.id) r.permissions
    → DistinctIds (λ (q : Permission). q.id) (remove_permission r b).permissions
      × ((a : ℕ) → holds a (remove_permission r b) ≡ (holds a r && not (a == b)))
unfolding remove_permission
remove_permission_lem r b d = (
  DistinctIds-select (λ q. q.id) b r.permissions d,
  λ a. has_id-select (λ q. q.id) a b r.permissions,
)
