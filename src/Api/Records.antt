-- ===== src/Api/Records.antt =====
-- app/api/v1/records.py and the validator of app/api/schemas/record.py. The filter of a listing is
-- modelled after its texts are read as an enumeration and as dates.
use financial_data.Prelude.{ℕ, Bool, not, none, map}
use financial_data.Prelude.Int.{pos}
use financial_data.Text.{lit}
use financial_data.Result.{
  Result, not_found_error, validation_error, request_validation_error, amount_not_positive,
}
use financial_data.Result
use financial_data.Money.{Decimal, finite, infinity, nan}
use financial_data.World.{Action, pure, lift, ◌>>=◌, ◌>>◌}
use financial_data.Repositories.Records.{RecordFilters}
use financial_data.UseCases.Records
use financial_data.UseCases.Records.{CreateRecordDto, UpdateRecordDto}
use financial_data.Api.Http.{
  Platform, Request, request_meta, value_as, permission_as, catching, guard, guarded_actor, subject,
}
use financial_data.UseCases.Users
use financial_data.Api.Responses.{Content, one_record, records, success, build, map_record}
use financial_data.Prelude.Int.{leb_ℤ}

-- v <= 0
abbrev pub is_not_positive : Decimal → Bool
is_not_positive (finite n places) = leb_ℤ n (pos 0)
is_not_positive infinity = financial_data.Prelude.false
is_not_positive nan = financial_data.Prelude.false

-- RecordCreate.amount_positive; infinities and NaN are refused by the type of the field
unfoldable pub amount_positive : Decimal → Result (Unit {0})
amount_positive v =
    Result.raise_if (is_not_positive v) (request_validation_error amount_not_positive)

module _ (platform : Platform) (request : Request) where
  unfoldable pub list_records : RecordFilters → Action Content
  list_records dto = do
    actor ← guarded_actor platform request (lit "records:read")
    (found, total) ← Records.get_records platform.matches platform.by_date dto actor
    answer ← lift (build (map map_record found) total dto.page dto.page_size)
    pure (records answer)

  -- The body is validated after the guards and before the endpoint runs.
  unfoldable pub create_record : CreateRecordDto → Action Content
  create_record body = do
    payload ← guard platform request (lit "records:create")
    lift (amount_positive body.amount)
    actor_id ← subject payload
    actor ← Users.get_user actor_id
    created ←
        catching (value_as validation_error)
          (Records.create_record body actor (request_meta request))
    pure (one_record (map_record created))

  unfoldable pub get_record : ℕ → Action Content
  get_record record_id = do
    actor ← guarded_actor platform request (lit "records:read")
    found ←
        catching (λ e. permission_as not_found_error (value_as not_found_error e))
          (Records.get_record record_id actor)
    pure (one_record (map_record found))

  unfoldable pub update_record : UpdateRecordDto → Action Content
  update_record dto = do
    actor ← guarded_actor platform request (lit "records:update")
    updated ←
        catching (λ e. permission_as not_found_error (value_as not_found_error e))
          (Records.update_record dto actor (request_meta request))
    pure (one_record (map_record updated))

  unfoldable pub delete_record : ℕ → Action Content
  delete_record record_id = do
    actor ← guarded_actor platform request (lit "records:delete")
    catching (λ e. permission_as not_found_error (value_as not_found_error e))
        (Records.delete_record record_id actor (request_meta request))
    pure (success (lit "Record deleted"))
