-- ===== src/Entities/Permission.antt =====
-- app/domain/entities/permission.py.
use financial_data.Prelude.{ℕ, Bool, false, ◌==◌, ◌++◌, ◌∷◌}
use financial_data.Text.{Text}

pub record Permission : Type 0 where
  pub id : ℕ
  pub resource : Text
  pub action : Text
  pub description : Text
  pub is_deleted : Bool
  pub created_at : ℕ
  pub updated_at : ℕ

-- Permission.create, with the identifier that is drawn and the time
unfoldable pub create : ℕ → ℕ → Text → Text → Text → Permission
create id now resource action description = record {
  id = id;
  resource = resource;
  action = action;
  description = description;
  is_deleted = false;
  created_at = now;
  updated_at = now;
}

-- f"{self.resource}:{self.action}"
unfoldable pub codename : Permission → Text
codename p = p.resource ++ b':' ∷ p.action

-- __eq__
unfoldable pub eq : Permission → Permission → Bool
eq p q = p.id == q.id
