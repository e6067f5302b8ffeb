-- ===== src/Result.antt =====
-- The exceptions of the program as values (`raise ValueError(…)`, `raise PermissionError(…)` and
-- what the decimal and database libraries raise), and computations that may raise one.
-- A message stands for the source's format string; what is interpolated into it is not kept.
use financial_data.Prelude.{Bool, true, false, List}

-- What `Password._validate_strength` may complain of, in the source's order.
pub data Weakness : Type 0 where
  too_short too_long no_uppercase no_lowercase no_digit no_special : Weakness

pub data Message : Type 0 where
  -- value objects
  invalid_amount amount_too_small amount_too_large negative_result : Message
  email_empty email_too_long email_format : Message
  weak_password : List Weakness → Message
  null_password : Message
  start_after_end end_in_future : Message
  -- entities
  already_deleted deleted_not_updatable deleted_not_activatable system_protected : Message
  -- use cases
  already_exists not_found role_missing role_inactive last_role own_account own_status : Message
  deleted_status invalid_permissions system_rename system_deactivate : Message
  invalid_credentials locked_out not_owner inactive_user : Message
  -- token service
  invalid_token missing_jti token_revoked token_not_found token_expired user_gone : Message
  -- core/dependencies.py
  bearer_required permission_required : Message
  -- api/v1 and api/schemas
  invalid_period blank_name amount_not_positive invalid_login malformed_json : Message

pub data Error : Type 0 where
  value_error permission_error authentication_error authorization_error : Message → Error
  -- core/exceptions.py
  not_found_error conflict_error validation_error : Message → Error
  -- fastapi.exceptions.RequestValidationError
  request_validation_error : Message → Error
  -- decimal.InvalidOperation
  invalid_operation : Error
  -- sqlalchemy.exc.IntegrityError, NoResultFound and MultipleResultsFound
  integrity_error no_result_found multiple_results : Error
  -- sqlalchemy.exc.DBAPIError, of a statement that the database refuses
  database_error : Error
  -- AttributeError, KeyError, TypeError, ZeroDivisionError and NotImplementedError
  attribute_error key_error type_error zero_division not_implemented : Error
  -- OverflowError, of a date before 0001-01-01
  overflow_error : Error

pub data Result (A : Type 0) : Type 0 where
  ok : A → Result A
  err : Error → Result A

infixl 5 ◌>>=◌ ◌>>◌
abbrev pub ◌>>=◌ : {A B : Type 0} → Result A → (A → Result B) → Result B
ok a >>= f = f a
err e >>= f = err e

abbrev pub ◌>>◌ : {B : Type 0} → Result (Unit {0}) → Result B → Result B
m >> k = m >>= λ _. k

-- if b: raise e
abbrev pub raise_if : Bool → Error → Result (Unit {0})
raise_if true e = err e
raise_if false e = ok tt
