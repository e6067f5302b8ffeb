-- ===== src/UseCases/Roles/System.antt =====
-- The guards of the system roles.
use financial_data.Prelude.{ℕ, Bool, true, false, ◌≡◌, refl, Option, some, ◌∷◌}
use financial_data.Text.{Text, text_eq, lower, strip}
use financial_data.Result.{ok, err, value_error, system_protected, system_rename, system_deactivate}
use financial_data.Entities.Role.{Role}
use financial_data.Entities.User.{User}
use financial_data.Entities.Audit.{RequestMeta}
use financial_data.World
use financial_data.World.{World, pure, raise, raise_if, or_raise, with_uow, close_session}
use financial_data.Repositories.Roles
use financial_data.UseCases.Roles.{is_system, renames, update_role, delete_role}

-- A system role, for as long as it is found, cannot be deleted, cannot be renamed to a text that is not
-- empty and is another name, and cannot be deactivated by an update that does not ask for such a name: each
-- of these is refused with its own error and changes nothing of the database.
pub system_role_protected :
    (id : ℕ) (r : Role) (actor : User) (meta : RequestMeta) (w : World)
    → Roles.get_by_id id (record w { session = w.committed })
      ≡ (ok (some r), record w { session = w.committed })
    → r.is_deleted ≡ false
    → is_system r.name ≡ true
    → (c : ℕ) (s : Text) (same_name description : Option Text) (flag : Option Bool)
    → text_eq (lower (strip (c ∷ s))) r.name ≡ false
    → renames same_name r ≡ false
    → (delete_role id actor meta w ≡ (err (value_error system_protected), close_session w))
      × (update_role id (some (c ∷ s)) description flag actor meta w
          ≡ (err (value_error system_rename), close_session w))
      × (update_role id same_name description (some false) actor meta w
          ≡ (err (value_error system_deactivate), close_session w))
unfolding update_role delete_role with_uow close_session World.◌>>=◌ raise_if raise pure or_raise
system_role_protected id r actor meta w found d sys c s same_name description flag n k =
    (rw (found, sys, d) refl, rw (found, sys, n, d) refl, rw (found, sys, k, d) refl)
