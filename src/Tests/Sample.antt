-- ===== src/Tests/Sample.antt =====
-- Sample data: a viewer and a stranger, a role, a category, a record, and the state around them.
use financial_data.Prelude.{refl, if◌then◌else◌, ◌+◌, true, false, none, some, [], ◌∷◌}
use financial_data.Prelude.Int.{pos}
use financial_data.Text.{Text, text_eq, lit}
use financial_data.Text.Laws.{text_eq_refl}
use financial_data.Crypto.{PasswordContext, has_nul}
use financial_data.Result.{ok, err, value_error, null_password}
use financial_data.Email.{Email}
use financial_data.Entities.Enums.{UserStatus, RecordType, CategoryType}
use financial_data.Entities.Permission.{Permission}
use financial_data.Entities.Role.{Role}
use financial_data.Entities.User.{User}
use financial_data.Entities.Category.{Category}
use financial_data.Entities.Record.{FinancialRecord}
use financial_data.Entities.Audit.{RequestMeta}
use financial_data.Database.{Db, UserModel, RoleModel}
use financial_data.TokenService.{Ttl}
use financial_data.World.{World}

-- A hash that is the digest itself.
abbrev pub passwords : PasswordContext
passwords = record {
  sha256 = λ s. s;
  hash = λ salt s. if has_nul s then err (value_error null_password) else ok s;
  verify = λ s hashed. ok (text_eq s hashed);
  needs_update = λ hashed. false;
  hash_nul = λ salt s h. rw h refl;
  hash_verifies = λ salt s h. (s, rw h refl, rw (text_eq_refl s) refl);
}

abbrev pub ttl : Ttl
ttl = record { access_minutes = 15; refresh_days = 7 }

abbrev pub meta : RequestMeta
meta = record { request_id = lit "r"; ip_address = lit "::1"; user_agent = lit "test" }

abbrev pub address : Text
address = lit "ann@b.io"

abbrev pub email : Email
email = record { value = address }

abbrev pub strong : Text
strong = lit "Passw0rd!"

abbrev pub read_permission : Permission
read_permission = record {
  id = 3;
  resource = lit "records";
  action = lit "read";
  description = [];
  is_deleted = false;
  created_at = 0;
  updated_at = 0;
}

abbrev pub viewer : Role
viewer = record {
  id = 7;
  name = lit "viewer";
  description = [];
  is_active = true;
  is_deleted = false;
  deleted_at = none;
  deleted_by = none;
  created_at = 0;
  updated_at = 0;
  permissions = [];
}

-- A role that may read, switched off.
abbrev pub dormant : Role
dormant = record viewer { id = 8; is_active = false; permissions = read_permission ∷ [] }

abbrev pub ann : User
ann = record {
  id = 1;
  email = email;
  password = record { hashed = strong };
  full_name = lit "Ann";
  status = UserStatus.active;
  is_deleted = false;
  deleted_at = none;
  deleted_by = none;
  created_at = 0;
  updated_at = 0;
  roles = viewer ∷ [];
}

-- Another user, with no role.
abbrev pub bob : User
bob = record ann { id = 2; roles = [] }

abbrev pub ann_row : UserModel
ann_row = record {
  id = 1;
  email = address;
  hashed_password = strong;
  full_name = lit "Ann";
  status = UserStatus.active;
  is_active = true;
  is_deleted = false;
  deleted_at = none;
  deleted_by = none;
  created_at = 0;
  updated_at = 0;
}

abbrev pub viewer_row : RoleModel
viewer_row = record {
  id = 7;
  name = lit "viewer";
  description = [];
  is_active = true;
  is_deleted = false;
  deleted_at = none;
  deleted_by = none;
  created_at = 0;
  updated_at = 0;
}

abbrev pub food : Category
food = record {
  id = 4;
  name = lit "Food";
  category_type = CategoryType.expense;
  description = [];
  is_system = false;
  is_active = true;
  is_deleted = false;
  deleted_at = none;
  deleted_by = none;
  created_by = none;
  created_at = 0;
  updated_at = 0;
}

abbrev pub lunch : FinancialRecord
lunch = record {
  id = 9;
  user_id = 1;
  amount = record { cents = pos 1250 };
  record_type = RecordType.expense;
  category_id = 4;
  record_date = 20;
  notes = none;
  is_deleted = false;
  deleted_at = none;
  deleted_by = none;
  created_at = 0;
  updated_at = 0;
  category_name = some (lit "Food");
}

abbrev pub db : Db
db = record {
  users = ann_row ∷ [];
  user_roles = record { user_id = 1; role_id = 7 } ∷ [];
  roles = viewer_row ∷ [];
  role_permissions = [];
  permissions = read_permission ∷ [];
  categories = food ∷ [];
  records =
      record {
        id = 9;
        user_id = 1;
        amount = pos 1250;
        record_type = RecordType.expense;
        category_id = 4;
        record_date = 20;
        notes = none;
        is_deleted = false;
        deleted_at = none;
        deleted_by = none;
        created_at = 0;
        updated_at = 0;
      }
      ∷ [];
  audit = [];
}

abbrev pub world : World
world = record {
  committed = db;
  session = db;
  tokens = [];
  cache = λ k. none;
  cache_up = true;
  uuids = λ n. n + 100;
  now = 1000;
}
