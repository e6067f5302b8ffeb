-- ===== src/UseCases/Categories.antt =====
-- app/application/use_cases/categories.
use financial_data.Prelude.{ℕ, Bool, false, not, Option, none, some, List, [], ◌∷◌, if◌then◌else◌}
use financial_data.Text.{Text, lit, text_eq, lower, strip}
use financial_data.Json
use financial_data.Json.{JsonDict, compute_diff}
use financial_data.Result.{value_error, already_exists, not_found}
use financial_data.Entities.Enums.{ActionType, CategoryType, category_type_value}
use financial_data.Entities.Category
use financial_data.Entities.Category.{Category}
use financial_data.Entities.User.{User}
use financial_data.Entities.Audit.{RequestMeta}
use financial_data.World.{
  Action, pure, lift, raise_if, or_raise, uuid4, utcnow, commit, with_uow, ◌>>=◌, ◌>>◌,
}
use financial_data.Repositories.Categories
use financial_data.UseCases.Auditing.{log_success}

-- The snapshot of create_category.py and delete_category.py.
abbrev pub snapshot : Category → Option JsonDict
snapshot c = some (
    (lit "id", Json.id c.id)
    ∷ (lit "name", Json.text c.name)
    ∷ (lit "type", Json.text (category_type_value c.category_type))
    ∷ (lit "is_system", Json.flag c.is_system)
    ∷ [])

-- CreateCategoryUseCase.execute
unfoldable pub create_category : Text → CategoryType → Text → User → RequestMeta → Action Category
create_category name category_type description actor meta = with_uow do
  taken ← Categories.exists_by_name name
  raise_if taken (value_error already_exists)
  id ← uuid4
  now ← utcnow
  let category = Category.create id now name category_type description (some actor.id) false
  Categories.add category
  log_success actor ActionType.categories_create (lit "categories") meta (some category.id) none
      (snapshot category) none
  commit
  pure category

-- `dto.name and dto.name.strip().lower() != category.name.lower()`, and then the uniqueness check
unfoldable pub check_name : Option Text → Category → Action (Unit {0})
check_name none c = pure tt
check_name (some []) c = pure tt
check_name (some (d ∷ name)) c =
    if not (text_eq (lower (strip (d ∷ name))) (lower c.name))
    then (do
      taken ← Categories.exists_by_name (d ∷ name)
      raise_if taken (value_error already_exists))
    else pure tt

-- `before` and `after` of update_category.py
abbrev pub settings : Category → JsonDict
settings c =
    (lit "name", Json.text c.name)
    ∷ (lit "description", Json.text c.description)
    ∷ (lit "is_active", Json.flag c.is_active)
    ∷ []

-- UpdateCategoryUseCase.execute
unfoldable pub update_category :
    ℕ → Option Text → Option Text → Option Bool → User → RequestMeta → Action Category
update_category category_id name description is_active actor meta = with_uow do
  found ← Categories.get_by_id category_id
  category ← or_raise found (value_error not_found)
  raise_if category.is_deleted (value_error not_found)
  check_name name category
  now ← utcnow
  category' ← lift (Category.update now name description is_active category)
  Categories.update category'
  diff ← lift (compute_diff (settings category) (settings category'))
  log_success actor ActionType.categories_update (lit "categories") meta (some category'.id)
      (some (settings category)) (some (settings category')) (some diff)
  commit
  pure category'

-- DeleteCategoryUseCase.execute
unfoldable pub delete_category : ℕ → User → RequestMeta → Action (Unit {0})
delete_category category_id actor meta = with_uow do
  found ← Categories.get_by_id category_id
  category ← or_raise found (value_error not_found)
  raise_if category.is_deleted (value_error not_found)
  now ← utcnow
  category' ← lift (Category.soft_delete now actor.id category)
  Categories.update category'
  log_success actor ActionType.categories_delete (lit "categories") meta (some category'.id)
      (snapshot category) none none
  commit
  pure tt

-- GetCategoriesUseCase.execute; `by_name` is the database's ORDER BY name
unfoldable pub get_categories :
    (List Category → List Category)
    → ℕ
    → ℕ
    → Option CategoryType
    → Bool
    → Action (List Category × ℕ)
get_categories by_name page page_size category_type include_inactive =
    with_uow (Categories.get_all by_name page page_size category_type include_inactive)

-- GetCategoryUseCase.execute
unfoldable pub get_category : ℕ → Action Category
get_category category_id = with_uow do
  found ← Categories.get_by_id category_id
  category ← or_raise found (value_error not_found)
  raise_if category.is_deleted (value_error not_found)
  pure category
