-- ===== src/Tests/Requests.antt =====
-- The use cases.
use financial_data.Prelude.{
  ℕ, ◌⊎◌, ◌≡◌, Bool, Option, List, true, false, none, some, select, [], ◌∷◌, refl, arith,
}
use financial_data.Text.{Text, lit}
use financial_data.Result.{
  ok, err, value_error, permission_error, not_owner, system_protected, system_rename,
  system_deactivate,
}
use financial_data.Entities.Record.{FinancialRecord, belongs_to}
use financial_data.Entities.Role.{Role}
use financial_data.Entities.User.{User, has_permission}
use financial_data.Database.{FinancialRecordModel}
use financial_data.World.{World, close_session}
use financial_data.Repositories.Records.{
  RecordFilters, add, get_by_id, get_dashboard_summary, in_scope, row_of, summary_of,
}
use financial_data.Repositories.Records.Laws.{with_row, summary_after_add}
use financial_data.UseCases.Users
use financial_data.UseCases.Users.NewUser.{new_user_unlinked}
use financial_data.UseCases.Register
use financial_data.UseCases.Roles
use financial_data.UseCases.Roles.System.{system_role_protected}
use financial_data.UseCases.Records
use financial_data.UseCases.Records.{UpdateRecordDto}
use financial_data.Prelude.Int.{pos}
use financial_data.Money.{finite}
use financial_data.UseCases.Records.Access.{OnlyOf, stranger_refused, get_records_own}
use financial_data.Tests.Sample.{passwords, meta, strong, ann, bob, viewer, lunch, world}
use financial_data.Entities.Enums.{RecordType}

abbrev cheaper : UpdateRecordDto
cheaper = record {
  record_id = 9;
  amount = none;
  record_type = none;
  category_id = none;
  record_date = none;
  notes = some [];
}

stranger_refused_example :
    ((has_permission bob (lit "records:update") ≡ true)
      ⊎ (Records.update_record cheaper bob meta world
          ≡ (err (permission_error not_owner), close_session world)))
    × ((has_permission bob (lit "records:delete") ≡ true)
        ⊎ (Records.delete_record 9 bob meta world
            ≡ (err (permission_error not_owner), close_session world)))
unfolding get_by_id financial_data.World.query financial_data.Repositories.Paging.map_found
    financial_data.Prelude.find? financial_data.Database.map_record financial_data.Money.of_cents
    financial_data.Entities.User.has_permission financial_data.Prelude.any belongs_to
stranger_refused_example = stranger_refused 9 bob lunch world (refl, refl) cheaper meta refl refl

abbrev everything : RecordFilters
everything = record {
  user_id = none;
  record_type = none;
  category_id = none;
  date_from = none;
  date_to = none;
  min_amount = none;
  max_amount = none;
  search = none;
  page = 1;
  page_size = 20;
}

get_records_own_example :
    OnlyOf 2 (Records.get_records (λ s m. true) (λ rows. rows) everything bob world).0
unfolding financial_data.Entities.User.has_permission financial_data.Prelude.any
get_records_own_example =
    get_records_own (λ s m. true) (λ rows. rows) (λ p rows h. h) everything bob world refl

abbrev coffee : FinancialRecord
coffee = record lunch { id = 10 }

abbrev dropped : FinancialRecord
dropped = record lunch { is_deleted = true; deleted_at = some 70; deleted_by = some 1 }

summary_after_add_example : get_dashboard_summary (some 1) none (some 25) (add coffee world).1 ≡ (
  ok (
      with_row
        (row_of 1000 coffee)
        (summary_of (select (in_scope (some 1) none (some 25)) world.session.records))),
  (add coffee world).1,
)
unfolding financial_data.Prelude.any with_row in_scope
summary_after_add_example = summary_after_add coffee world (some 1) none (some 25) refl refl

new_user_unlinked_example :
    ((Users.create_user passwords
        (record {
          email = lit "new@b.io";
          password = strong;
          full_name = lit "New";
          role_names = lit "viewer" ∷ [];
        })
        ann
        meta
        world).1.committed.user_roles
      ≡ world.committed.user_roles)
    × ((Register.register passwords
          (record { email = lit "new@b.io"; password = strong; full_name = lit "New" })
          meta
          world).1.committed.user_roles
        ≡ world.committed.user_roles)
new_user_unlinked_example =
    new_user_unlinked passwords
      (record {
        email = lit "new@b.io";
        password = strong;
        full_name = lit "New";
        role_names = lit "viewer" ∷ [];
      })
      (record { email = lit "new@b.io"; password = strong; full_name = lit "New" }) ann meta world

system_role_protected_example :
    (Roles.delete_role 7 ann meta world ≡ (err (value_error system_protected), close_session world))
    × (Roles.update_role 7 (some (lit "owner")) none none ann meta world
        ≡ (err (value_error system_rename), close_session world))
    × (Roles.update_role 7 none none (some false) ann meta world
        ≡ (err (value_error system_deactivate), close_session world))
unfolding financial_data.Repositories.Roles.get_by_id financial_data.World.query
    financial_data.Repositories.Paging.map_found financial_data.Prelude.find?
    financial_data.Database.map_role financial_data.Database.permissions_of select Roles.is_system
    financial_data.Text.lower financial_data.Text.strip
system_role_protected_example =
    system_role_protected 7 viewer ann meta world refl refl refl b'o' (lit "wner") none none none
      refl refl

abbrev snack : Records.CreateRecordDto
snack = record {
  amount = finite (pos 5) 1;
  record_type = RecordType.expense;
  category_id = 4;
  record_date = 21;
  notes = none;
}
