-- ===== src/Repositories/Categories.antt =====
-- app/infrastructure/repositories/category_repo.py.
use financial_data.Prelude.{
  ℕ, Bool, true, false, not, ◌&&◌, ◌||◌, Option, none, some, List, [], ◌∷◌, ◌++◌, ◌==◌, any, select,
  find?, update_where,
}
use financial_data.Text.{Text, text_eq, lower, strip}
use financial_data.Result.{ok, integrity_error, no_result_found}
use financial_data.Entities.Category.{Category}
use financial_data.Entities.Enums.{CategoryType}
use financial_data.World.{Action, query, write, raise_if, utcnow, ◌>>=◌, ◌>>◌}
use financial_data.Repositories.Paging.{listing}

abbrev pub live_id : ℕ → Category → Bool
live_id id m = m.id == id && not m.is_deleted

unfoldable pub get_by_id : ℕ → Action (Option Category)
get_by_id id = query (λ db. ok (find? (live_id id) db.categories))

-- func.lower(CategoryModel.name) == name.strip().lower(), CategoryModel.is_deleted == False
abbrev pub live_name : Text → Category → Bool
live_name name m = text_eq (lower m.name) (lower (strip name)) && not m.is_deleted

unfoldable pub get_by_name : Text → Action (Option Category)
get_by_name name = query (λ db. ok (find? (live_name name) db.categories))

unfoldable pub exists_by_name : Text → Action Bool
exists_by_name name = query (λ db. ok (any (live_name name) db.categories))

abbrev pub same_type : CategoryType → CategoryType → Bool
same_type CategoryType.income CategoryType.income = true
same_type CategoryType.expense CategoryType.expense = true
same_type CategoryType.both CategoryType.both = true
same_type _ _ = false

abbrev pub of_type : Option CategoryType → Category → Bool
of_type none m = true
of_type (some t) m = same_type m.category_type t

-- get_all; `by_name` is the database's ORDER BY name
unfoldable pub get_all :
    (List Category → List Category)
    → ℕ
    → ℕ
    → Option CategoryType
    → Bool
    → Action (List Category × ℕ)
get_all by_name page page_size category_type include_inactive = query (λ db.
    listing (λ m. ok m) page page_size
      (by_name (
        select
          (λ m. not m.is_deleted && (include_inactive || m.is_active) && of_type category_type m)
          db.categories)))

unfoldable pub get_system_categories : Action (List Category)
get_system_categories =
    query (λ db. ok (select (λ m. m.is_system && not m.is_deleted) db.categories))

unfoldable pub get_by_ids : List ℕ → Action (List Category)
get_by_ids ids =
    query (λ db. ok (select (λ m. any (λ id. m.id == id) ids && not m.is_deleted) db.categories))

-- The identifier is the primary key, and the name is unique among all rows, deleted ones too.
abbrev pub clashes : Category → Category → Bool
clashes c m = m.id == c.id || text_eq m.name c.name

abbrev pub row_of : ℕ → Category → Category
row_of now c = record c {
  is_deleted = false;
  deleted_at = none;
  deleted_by = none;
  created_at = now;
  updated_at = now;
}

-- add
unfoldable pub add : Category → Action (Unit {0})
add c = do
  now ← utcnow
  clash ← query (λ db. ok (any (clashes c) db.categories))
  raise_if clash integrity_error
  write (λ db. record db { categories = db.categories ++ row_of now c ∷ [] })

-- The type, the system flag and the creator are not written again.
abbrev pub assign_row : Category → Category → Category
assign_row c m = record m {
  name = c.name;
  description = c.description;
  is_active = c.is_active;
  is_deleted = c.is_deleted;
  deleted_at = c.deleted_at;
  deleted_by = c.deleted_by;
}

-- update
unfoldable pub update : Category → Action (Unit {0})
update c = do
  there ← query (λ db. ok (any (λ m. m.id == c.id) db.categories))
  raise_if (not there) no_result_found
  clash ← query (λ db. ok (any (λ m. not (m.id == c.id) && text_eq m.name c.name) db.categories))
  raise_if clash integrity_error
  write (λ db. record db {
    categories = update_where (λ m. m.id == c.id) (assign_row c) db.categories;
  })

-- delete
unfoldable pub delete : Category → Action (Unit {0})
delete c = do
  there ← query (λ db. ok (any (λ m. m.id == c.id) db.categories))
  raise_if (not there) no_result_found
  write (λ db. record db { categories = select (λ m. not (m.id == c.id)) db.categories })
