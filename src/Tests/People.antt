-- ===== src/Tests/People.antt =====
-- Users, roles and records.
use financial_data.Prelude.{◌≡◌, true, false, none, some, any, [], ◌∷◌, refl}
use financial_data.Prelude.Int.{pos}
use financial_data.Text.{Text, text_eq, text_in, lit}
use financial_data.Result.{ok}
use financial_data.Json
use financial_data.Json.Laws.{changed}
use financial_data.Entities.Permission.{codename}
use financial_data.Entities.User
use financial_data.Entities.User.{User}
use financial_data.Entities.User.Laws.{has_permission_of_live, token_ignores_is_active}
use financial_data.Entities.Record
use financial_data.Entities.Record.{FinancialRecord, snapshot, assign}
use financial_data.Entities.Record.Laws.{update_lem}
use financial_data.Tests.Sample.{ann, dormant, lunch}

abbrev read : Text
read = lit "records:read"

has_permission_of_live_example :
    User.has_permission ann read ≡ text_in read (User.get_all_permissions ann)
has_permission_of_live_example = has_permission_of_live ann read ((refl, refl), tt)

abbrev idle : User
idle = record ann { roles = dormant ∷ [] }

token_ignores_is_active_example :
    (User.has_permission idle read ≡ false) × (text_in read (User.get_all_permissions idle) ≡ true)
unfolding any text_eq codename
token_ignores_is_active_example = token_ignores_is_active idle read (refl, tt) refl

abbrev dinner : FinancialRecord
dinner = assign 60 (some (record { cents = pos 3000 })) none none none none lunch

update_example :
    (d : Json.JsonDict) × (Record.update 60
        (some (record { cents = pos 3000 }))
        none
        none
        none
        none
        lunch
      ≡ ok (dinner, d))
    × ((k : Text)
        → Json.get k d ≡ changed (Json.get k (snapshot lunch)) (Json.get k (snapshot dinner)))
update_example = update_lem 60 (some (record { cents = pos 3000 })) none none none none lunch refl

abbrev dropped : FinancialRecord
dropped = record lunch { is_deleted = true; deleted_at = some 70; deleted_by = some 1 }
