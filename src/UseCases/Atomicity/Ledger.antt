-- ===== src/UseCases/Atomicity/Ledger.antt =====
-- The use cases of the categories and of the records are atomic.
use financial_data.Prelude.{ℕ, Bool, Option, none, some, [], ◌∷◌}
use financial_data.Entities.Enums.{CategoryType}
use financial_data.Entities.Category.{Category}
use financial_data.Text.{Text}
use financial_data.Entities.User.{User}
use financial_data.Entities.Audit.{RequestMeta}
use financial_data.Cache.{invalidate}
use financial_data.World.{World, pure, ◌>>=◌}
use financial_data.World.Pending.{IsPending, IsAtomic, IsAtomic-then, Failed}
use financial_data.Repositories.Pending.{repository_rules}
use financial_data.UseCases.Categories
use financial_data.UseCases.Records
use financial_data.UseCases.Atomicity.{unit_rules}

pub check_category_name-IsPending :
    (name : Option Text) (c : Category) → IsPending (Categories.check_name name c)
unfolding Categories.check_name
check_category_name-IsPending none c = search repository_rules
check_category_name-IsPending (some []) c = search repository_rules
check_category_name-IsPending (some (d ∷ name)) c = search repository_rules depth 9

pub ruleset category_rules = (unit_rules, check_category_name-IsPending)

pub create_category-IsAtomic :
    (name : Text) (t : CategoryType) (description : Text) (actor : User) (meta : RequestMeta)
    → IsAtomic (Categories.create_category name t description actor meta)
unfolding Categories.create_category
create_category-IsAtomic name t description actor meta = search category_rules depth 30

pub update_category-IsAtomic :
    (id : ℕ) (name description : Option Text) (b : Option Bool) (actor : User) (meta : RequestMeta)
    → IsAtomic (Categories.update_category id name description b actor meta)
unfolding Categories.update_category
update_category-IsAtomic id name description b actor meta = search category_rules depth 30

pub delete_category-IsAtomic :
    (id : ℕ) (actor : User) (meta : RequestMeta)
    → IsAtomic (Categories.delete_category id actor meta)
unfolding Categories.delete_category
delete_category-IsAtomic id actor meta = search category_rules depth 30

pub load_category-IsPending : (id : ℕ) → IsPending (Records.load_category id)
unfolding Records.load_category
load_category-IsPending id = search repository_rules depth 9

pub check_category-IsPending : (id : Option ℕ) → IsPending (Records.check_category id)
unfolding Records.check_category
check_category-IsPending none = search repository_rules
check_category-IsPending (some id) = search (repository_rules, load_category-IsPending)

pub load_record-IsPending :
    (id : ℕ) (codename : Text) (actor : User) → IsPending (Records.load_record id codename actor)
unfolding Records.load_record
load_record-IsPending id codename actor = search repository_rules depth 9

-- The cache is invalidated after the commit, and that does not raise.
pub after_commit :
    {A : Type 0} (user_id : ℕ) (a : A) (w : World)
    → ¬ Failed ((invalidate user_id >>= λ (u : Unit {0}). pure a) w).0
unfolding invalidate pure ◌>>=◌
after_commit user_id a w h = h

pub ruleset record_rules = (
  category_rules, load_category-IsPending, check_category-IsPending, load_record-IsPending,
  IsAtomic-then, after_commit,
)

pub create_record-IsAtomic :
    (dto : Records.CreateRecordDto) (actor : User) (meta : RequestMeta)
    → IsAtomic (Records.create_record dto actor meta)
unfolding Records.create_record
create_record-IsAtomic dto actor meta =
    IsAtomic-then _ _ (search record_rules depth 30) (λ a. after_commit actor.id a)

pub update_record-IsAtomic :
    (dto : Records.UpdateRecordDto) (actor : User) (meta : RequestMeta)
    → IsAtomic (Records.update_record dto actor meta)
unfolding Records.update_record
update_record-IsAtomic dto actor meta =
    IsAtomic-then _ _ (search record_rules depth 30) (λ a. after_commit actor.id a)

pub delete_record-IsAtomic :
    (id : ℕ) (actor : User) (meta : RequestMeta) → IsAtomic (Records.delete_record id actor meta)
unfolding Records.delete_record
delete_record-IsAtomic id actor meta =
    IsAtomic-then _ _ (search record_rules depth 30) (λ a. after_commit actor.id a)

-- The use cases of the categories and the records: where one raises, what is committed is as it was.
pub ledger-IsAtomic :
    (actor : User) (meta : RequestMeta)
    → ((name : Text) (t : CategoryType) (description : Text)
        → IsAtomic (Categories.create_category name t description actor meta))
      × ((id : ℕ) (name description : Option Text) (b : Option Bool)
          → IsAtomic (Categories.update_category id name description b actor meta))
      × ((id : ℕ) → IsAtomic (Categories.delete_category id actor meta))
      × ((dto : Records.CreateRecordDto) → IsAtomic (Records.create_record dto actor meta))
      × ((dto : Records.UpdateRecordDto) → IsAtomic (Records.update_record dto actor meta))
      × ((id : ℕ) → IsAtomic (Records.delete_record id actor meta))
ledger-IsAtomic actor meta = (
  λ name t description. create_category-IsAtomic name t description actor meta,
  λ id name description b. update_category-IsAtomic id name description b actor meta,
  λ id. delete_category-IsAtomic id actor meta,
  λ dto. create_record-IsAtomic dto actor meta,
  λ dto. update_record-IsAtomic dto actor meta,
  λ id. delete_record-IsAtomic id actor meta,
)
