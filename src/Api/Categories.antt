-- ===== src/Api/Categories.antt =====
-- app/api/v1/categories.py.
use financial_data.Prelude.{ℕ, Bool, Option, map}
use financial_data.Text.{Text, lit}
use financial_data.Result.{conflict_error, not_found_error, validation_error}
use financial_data.Entities.Enums.{CategoryType}
use financial_data.World.{Action, pure, lift, ◌>>=◌, ◌>>◌}
use financial_data.UseCases.Categories
use financial_data.Api.Http.{
  Platform, Request, request_meta, value_as, catching, guard, guarded_actor,
}
use financial_data.Api.Responses.{Content, one_category, categories, success, build, map_category}

module _ (platform : Platform) (request : Request) where
  unfoldable pub list_categories : ℕ → ℕ → Option CategoryType → Bool → Action Content
  list_categories page page_size category_type include_inactive = do
    payload ← guard platform request (lit "categories:read")
    (found, total) ←
        Categories.get_categories platform.by_name page page_size category_type include_inactive
    answer ← lift (build (map map_category found) total page page_size)
    pure (categories answer)

  unfoldable pub create_category : Text → CategoryType → Text → Action Content
  create_category name category_type description = do
    actor ← guarded_actor platform request (lit "categories:create")
    category ←
        catching (value_as conflict_error)
          (Categories.create_category name category_type description actor (request_meta request))
    pure (one_category (map_category category))

  unfoldable pub get_category : ℕ → Action Content
  get_category category_id = do
    payload ← guard platform request (lit "categories:read")
    category ← catching (value_as not_found_error) (Categories.get_category category_id)
    pure (one_category (map_category category))

  unfoldable pub update_category : ℕ → Option Text → Option Text → Option Bool → Action Content
  update_category category_id name description is_active = do
    actor ← guarded_actor platform request (lit "categories:update")
    category ← catching (value_as validation_error) (
        Categories.update_category category_id name description is_active actor
          (request_meta request))
    pure (one_category (map_category category))

  unfoldable pub delete_category : ℕ → Action Content
  delete_category category_id = do
    actor ← guarded_actor platform request (lit "categories:delete")
    catching (value_as validation_error)
        (Categories.delete_category category_id actor (request_meta request))
    pure (success (lit "Category deleted"))
