-- ===== src/CacheKeys.antt =====
-- The keys and the values of the cache. A key is kept before it is printed: `dashboard:summary:…`,
-- `dashboard:categories:…` and `dashboard:trends:…` (infrastructure/repositories/cached_repo.py),
-- `login_attempts:…` (use_cases/auth/login.py) and `blacklist:jti:…` (token_service.py). The parts
-- that are printed hold no colon but in an email or a token identifier, which stand last.
-- A value is kept before `json.dumps`.
use financial_data.Prelude.{ℕ, Bool, true, false, ◌&&◌, Option, none, some, List, ◌==◌}
use financial_data.Prelude.Int.{ℤ}
use financial_data.Text.{Text, text_eq}
use financial_data.Entities.Enums.{RecordType}

-- domain/repositories/record_repo.py
pub record DashboardSummary : Type 0 where
  pub total_income : ℤ
  pub total_expense : ℤ
  pub net_balance : ℤ
  pub total_records : ℕ

pub record CategoryTotal : Type 0 where
  pub category_id : ℕ
  pub category_name : Text
  pub record_type : RecordType
  pub total : ℤ
  pub count : ℕ

pub record TrendPoint : Type 0 where
  pub period : Text
  pub record_type : RecordType
  pub total : ℤ
  pub count : ℕ

-- The user of a dashboard key is `none` where the source prints `global`, and a date where it
-- prints `all`.
pub data CacheKey : Type 0 where
  summary_key categories_key : Option ℕ → Option ℕ → Option ℕ → CacheKey
  trends_key : Option ℕ → Text → ℕ → CacheKey
  login_attempts : Text → CacheKey
  blacklist : ℕ → CacheKey

pub data CacheValue : Type 0 where
  number : ℕ → CacheValue
  summary : DashboardSummary → CacheValue
  totals : List CategoryTotal → CacheValue
  trends : List TrendPoint → CacheValue

-- A cached value with the second at which it expires; `none` lives until it is deleted.
pub record CacheEntry : Type 0 where
  pub value : CacheValue
  pub expires_at : Option ℕ

abbrev pub option_eq : Option ℕ → Option ℕ → Bool
option_eq none none = true
option_eq (some a) (some b) = a == b
option_eq _ _ = false

unfoldable pub key_eq : CacheKey → CacheKey → Bool
key_eq (summary_key u a b) (summary_key v c d) = option_eq u v && option_eq a c && option_eq b d
key_eq (categories_key u a b) (categories_key v c d) =
    option_eq u v && option_eq a c && option_eq b d
key_eq (trends_key u p n) (trends_key v q m) = option_eq u v && text_eq p q && n == m
key_eq (login_attempts s) (login_attempts t) = text_eq s t
key_eq (blacklist a) (blacklist b) = a == b
key_eq _ _ = false

-- Whether a key fits the pattern `dashboard:*:{uid}:*`, or `dashboard:*:global:*` for `none`.
unfoldable pub fits : Option ℕ → CacheKey → Bool
fits u (summary_key v a b) = option_eq u v
fits u (categories_key v a b) = option_eq u v
fits u (trends_key v p n) = option_eq u v
fits u _ = false
