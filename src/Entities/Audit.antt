-- ===== src/Entities/Audit.antt =====
-- app/domain/entities/audit.py. `__setattr__` reads the flag `_frozen`, which `__post_init__` sets.
use financial_data.Prelude.{ℕ, Bool, true, Option, none, some, List, if◌then◌else◌}
use financial_data.Text.{Text}
use financial_data.Json.{JsonDict}
use financial_data.Result.{Result, ok, err, attribute_error}
use financial_data.Entities.Enums.{ActionType, AuditStatus}

-- `failure_reason` and `status` stand last, as in the class; the time is set by default.
pub record AuditLog : Type 0 where
  pub id : ℕ
  pub actor_id : ℕ
  pub actor_email : Text
  pub actor_roles : List Text
  pub action : ActionType
  pub resource : Text
  pub resource_id : Option ℕ
  pub before : Option JsonDict
  pub after : Option JsonDict
  pub diff : Option JsonDict
  pub request_id : Text
  pub ip_address : Text
  pub user_agent : Text
  pub status : AuditStatus
  pub failure_reason : Option Text
  pub timestamp : ℕ
  pub frozen : Bool

-- The three texts of a request that every entry carries.
pub record RequestMeta : Type 0 where
  pub request_id : Text
  pub ip_address : Text
  pub user_agent : Text

-- AuditLog.create_success
unfoldable pub create_success :
    ℕ
    → ℕ
    → ℕ
    → Text
    → List Text
    → ActionType
    → Text
    → RequestMeta
    → Option ℕ
    → Option JsonDict
    → Option JsonDict
    → Option JsonDict
    → AuditLog
create_success id now actor_id actor_email actor_roles action resource meta resource_id before after
      diff =
    record {
      id = id;
      actor_id = actor_id;
      actor_email = actor_email;
      actor_roles = actor_roles;
      action = action;
      resource = resource;
      resource_id = resource_id;
      before = before;
      after = after;
      diff = diff;
      request_id = meta.request_id;
      ip_address = meta.ip_address;
      user_agent = meta.user_agent;
      status = AuditStatus.success;
      failure_reason = none;
      timestamp = now;
      frozen = true;
    }

-- AuditLog.create_failure
unfoldable pub create_failure :
    ℕ → ℕ → ℕ → Text → List Text → ActionType → Text → RequestMeta → Text → Option ℕ → AuditLog
create_failure id now actor_id actor_email actor_roles action resource meta failure_reason
      resource_id =
    record {
      id = id;
      actor_id = actor_id;
      actor_email = actor_email;
      actor_roles = actor_roles;
      action = action;
      resource = resource;
      resource_id = resource_id;
      before = none;
      after = none;
      diff = none;
      request_id = meta.request_id;
      ip_address = meta.ip_address;
      user_agent = meta.user_agent;
      status = AuditStatus.failed;
      failure_reason = some failure_reason;
      timestamp = now;
      frozen = true;
    }

-- __setattr__: `write` is the assignment that was asked for.
unfoldable pub set_attribute : (AuditLog → AuditLog) → AuditLog → Result AuditLog
set_attribute write a = if a.frozen then err attribute_error else ok (write a)
