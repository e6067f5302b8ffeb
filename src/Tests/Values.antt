-- ===== src/Tests/Values.antt =====
-- Amounts, addresses, passwords, dates, snapshots and pages.
use financial_data.Prelude.{
  ℕ, ◌≡◌, ◌≤◌, ◌↔◌, ◌⊎◌, any, true, false, some, [], ◌∷◌, ◌++◌, length, refl, arith,
}
use financial_data.Prelude.Int.{pos, ◌+ℤ◌, ◌-ℤ◌}
use financial_data.Text.{Text, lit, lower, strip}
use financial_data.Result.{ok, err, value_error, amount_too_large, no_digit, null_password}
use financial_data.Money
use financial_data.Money.{Money, finite, max_amount}
use financial_data.Money.Laws as MoneyLaws
use financial_data.Money.Laws.{new_bounds, of_cents-cents, add_exact, sub_exact}
use financial_data.Email
use financial_data.Email.Grammar.{IsAddress}
use financial_data.Email.Laws.{new_iff, local_part-domain}
use financial_data.Crypto.{has_nul}
use financial_data.Password
use financial_data.Password.Laws.{
  IsStrong, Fails, listed, weaknesses_iff, validate_strength_iff, new-verify,
}
use financial_data.DateRange.{DateRange, overlaps, contains}
use financial_data.DateRange.Laws as DateLaws
use financial_data.DateRange.Laws.{days-contains, overlaps_iff, last_n_days_lem, current_week_lem}
use financial_data.Tests.Sample.{passwords, address, email, strong}

abbrev euro : Money
euro = record { cents = pos 100 }

abbrev most : Money
most = record { cents = max_amount }

euro-IsValid : MoneyLaws.IsValid euro
euro-IsValid = record { lower = omega arith; upper = omega arith }

most-IsValid : MoneyLaws.IsValid most
most-IsValid = record { lower = omega arith; upper = omega arith }

add_exact_example : Money.add euro most ≡ err (value_error amount_too_large)
unfolding ◌+ℤ◌
add_exact_example = add_exact euro most euro-IsValid most-IsValid

sub_exact_example : Money.sub most euro ≡ ok (record { cents = pos 99999999899 })
unfolding ◌-ℤ◌
sub_exact_example = sub_exact most euro most-IsValid euro-IsValid

new_iff_example :
    (IsAddress (lower (strip (lit " Ann@B.io"))) × (length (lower (strip (lit " Ann@B.io"))) ≤ 254))
    ↔ (Email.new (lit " Ann@B.io") ≡ ok (record { value = lower (strip (lit " Ann@B.io")) }))
new_iff_example = new_iff (lit " Ann@B.io")

local_part-domain_example :
    (name host : Text) × (Email.local_part email ≡ some name)
    × (Email.domain email ≡ some host)
    × (address ≡ name ++ b'@' ∷ host)
unfolding Email.new lower strip Email.matches Email.match_local Email.is_local Email.match_domain
    Email.is_tld
local_part-domain_example = local_part-domain address email refl

weaknesses_iff_example :
    (listed no_digit (Password.weaknesses (lit "Password!")) ≡ true)
    ↔ Fails no_digit (lit "Password!")
weaknesses_iff_example = weaknesses_iff (lit "Password!") no_digit

strong-IsStrong : IsStrong strong
unfolding Password.weaknesses Password.validate_strength any Password.is_special Password.is_digit
    Password.is_lower Password.is_upper
strong-IsStrong = (validate_strength_iff strong).0 refl

new-verify_example :
    ((has_nul (passwords.sha256 strong) ≡ false)
      × ((p : Password.Password) × (Password.new passwords 5 strong ≡ ok p)
          × (Password.verify passwords p strong ≡ ok true)))
    ⊎ ((has_nul (passwords.sha256 strong) ≡ true)
        × (Password.new passwords 5 strong ≡ err (value_error null_password)))
new-verify_example = new-verify passwords 5 strong strong-IsStrong

abbrev spring : DateRange
spring = record { start = 10; end = 20 }

abbrev summer : DateRange
summer = record { start = 20; end = 30 }

spring-IsValid : DateLaws.IsValid 40 spring
spring-IsValid = record { ordered = omega arith; past = omega arith }

summer-IsValid : DateLaws.IsValid 40 summer
summer-IsValid = record { ordered = omega arith; past = omega arith }

overlaps_iff_example :
    (overlaps spring summer ≡ true)
    ↔ ((d : ℕ) × (contains spring d ≡ true) × (contains summer d ≡ true))
overlaps_iff_example = overlaps_iff 40 spring summer spring-IsValid summer-IsValid

abbrev rows : Text
rows = 10 ∷ 20 ∷ 30 ∷ []
