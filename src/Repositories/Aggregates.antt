-- ===== src/Repositories/Aggregates.antt =====
-- The GROUP BY queries of app/infrastructure/repositories/record_repo.py: the totals of the
-- categories and the trends.
pub mod Breakdown
use financial_data.Prelude.{
  ℕ, ◌+◌, Bool, true, false, ◌&&◌, not, Option, none, some, List, [], ◌∷◌, map, ◌==◌, select, find?,
  take, if◌then◌else◌,
}
use financial_data.Prelude.Int.{ℤ, ◌+ℤ◌}
use financial_data.Text.{Text, text_eq, lit}
use financial_data.Result.{ok}
use financial_data.CacheKeys.{CategoryTotal, TrendPoint}
use financial_data.Entities.Category.{Category}
use financial_data.Entities.Enums.{RecordType}
use financial_data.Database.{FinancialRecordModel}
use financial_data.World.{Action, query}
use financial_data.Repositories.Records.{same_type, where_given, in_scope}

-- What the database supplies: `date_trunc` to a month (true) or a week, as the first day of the
-- period, `strftime` of such a day, and the two orders.
pub record Dialect : Type 0 where
  pub trunc : Bool → ℕ → ℕ
  pub label : Bool → ℕ → Text
  pub by_total : List CategoryTotal → List CategoryTotal
  -- of a period, its type, its total and its count
  pub by_period : List (ℕ × RecordType × ℤ × ℕ) → List (ℕ × RecordType × ℤ × ℕ)

-- The group of a row: its category and its type.
abbrev pub same_group : ℕ → RecordType → CategoryTotal → Bool
same_group category_id t g = g.category_id == category_id && same_type g.record_type t

-- One more row of a group: sum(amount) and count(id).
unfoldable pub tally : Category → FinancialRecordModel → List CategoryTotal → List CategoryTotal
tally c m [] =
    record {
      category_id = m.category_id;
      category_name = c.name;
      record_type = m.record_type;
      total = m.amount;
      count = 1;
    }
    ∷ []
tally c m (g ∷ groups) =
    let rest = tally c m groups in
    if same_group m.category_id m.record_type g
    then record g { total = m.amount +ℤ g.total; count = g.count + 1 } ∷ groups
    else g ∷ rest

-- The join: a row without a category is in no group.
abbrev pub tally_joined :
    Option Category → FinancialRecordModel → List CategoryTotal → List CategoryTotal
tally_joined none m groups = groups
tally_joined (some c) m groups = tally c m groups

-- The groups of the rows.
unfoldable pub totals_of : List Category → List FinancialRecordModel → List CategoryTotal
unfolding tally
totals_of categories [] = []
totals_of categories (m ∷ rows) =
    tally_joined (find? (λ c. c.id == m.category_id) categories) m (totals_of categories rows)

-- get_category_totals
unfoldable pub get_category_totals :
    Dialect → Option ℕ → Option ℕ → Option ℕ → Action (List CategoryTotal)
get_category_totals dialect user_id date_from date_to = query (λ db. ok (
    dialect.by_total
      (totals_of db.categories (select (in_scope user_id date_from date_to) db.records))))

abbrev pub same_period : ℕ → RecordType → ℕ × RecordType × ℤ × ℕ → Bool
same_period p t (q, u, total, count) = q == p && same_type u t

-- One more row of a period.
unfoldable pub tally_period :
    ℕ → FinancialRecordModel → List (ℕ × RecordType × ℤ × ℕ) → List (ℕ × RecordType × ℤ × ℕ)
tally_period p m [] = (p, m.record_type, m.amount, 1) ∷ []
tally_period p m ((q, u, total, count) ∷ groups) =
    let rest = tally_period p m groups in
    if q == p && same_type u m.record_type
    then (q, u, m.amount +ℤ total, count + 1) ∷ groups
    else (q, u, total, count) ∷ rest

unfoldable pub periods_of : (ℕ → ℕ) → List FinancialRecordModel → List (ℕ × RecordType × ℤ × ℕ)
unfolding tally_period
periods_of trunc [] = []
periods_of trunc (m ∷ rows) = tally_period (trunc m.record_date) m (periods_of trunc rows)

abbrev pub point_of : (ℕ → Text) → ℕ × RecordType × ℤ × ℕ → TrendPoint
point_of label (p, t, total, count) = record {
  period = label p;
  record_type = t;
  total = total;
  count = count;
}

-- period == "monthly"
unfoldable pub is_monthly : Text → Bool
unfolding text_eq
is_monthly period = text_eq period (lit "monthly")

-- get_trends: the limit counts the groups, of which a period may have two
unfoldable pub get_trends : Dialect → Text → Option ℕ → ℕ → Action (List TrendPoint)
get_trends dialect period user_id limit =
    let monthly = is_monthly period in
    query (λ db. ok (
      map (point_of (dialect.label monthly)) (
        take limit (
          dialect.by_period (
            periods_of (dialect.trunc monthly) (
              select (λ m. not m.is_deleted && where_given user_id (λ u. m.user_id == u))
                db.records))))))
