-- ===== src/UseCases/Users/NewUser.antt =====
-- A new user: what the database holds of the roles that the entity was given.
use financial_data.Prelude.{ℕ, ◌∙◌, ◌≡◌, refl, List, [], ◌∷◌, Option}
use financial_data.Text.{Text}
use financial_data.Json.{JsonDict}
use financial_data.Crypto.{PasswordContext}
use financial_data.Email.{Email}
use financial_data.Entities.Enums.{ActionType}
use financial_data.Entities.User.{User}
use financial_data.Entities.Audit.{RequestMeta}
use financial_data.Database.{Db, UserRoleModel}
use financial_data.World.{World, Action, uuid4, write, commit, with_uow}
use financial_data.World.Keeps.{Keeps, Keeps-bind, keeps_rules}
use financial_data.Repositories.Users
use financial_data.Repositories.Roles
use financial_data.Repositories.Audit.Laws.{log-Keeps}
use financial_data.UseCases.Auditing.{log_success}
use financial_data.UseCases.Users.{CreateUserDto, load_roles, create_user}
use financial_data.UseCases.Register.{RegisterDto, register}

-- The links between users and roles, committed and pending.
abbrev Links : List UserRoleModel → World → Type 0
Links links w = (w.session.user_roles ≡ links) × (w.committed.user_roles ≡ links)

module _ {links : List UserRoleModel} where
  uuid4-Keeps : Keeps (Links links) uuid4
  unfolding uuid4
  uuid4-Keeps = record { at = λ w h. h }

  commit-Keeps : Keeps (Links links) commit
  unfolding commit
  commit-Keeps = record { at = λ w h. (h.0, h.0) }

  write-Keeps :
      (f : Db → Db)
      → ((db : Db) → (f db).user_roles ≡ db.user_roles)
      → Keeps (Links links) (write f)
  unfolding write
  write-Keeps f same = record { at = λ w h. (same w.session ∙ h.0, h.1) }

  with_uow-Keeps :
      {A : Type 0} (m : Action A) → Keeps (Links links) m → Keeps (Links links) (with_uow m)
  unfolding with_uow
  with_uow-Keeps m k = record {
    at = λ w h. let r = k.at (record w { session = w.committed }) (h.1, h.1) in (r.1, r.1);
  }

  add-Keeps : (u : User) → Keeps (Links links) (Users.add u)
  unfolding Users.add
  add-Keeps u = Keeps-bind _ _ (search keeps_rules) (λ now.
      Keeps-bind _ _ (search keeps_rules)
        (λ clash. Keeps-bind _ _ (search keeps_rules) (λ ok. write-Keeps _ (λ db. refl))))

  get_by_name-Keeps : (name : Text) → Keeps (Links links) (Roles.get_by_name name)
  unfolding Roles.get_by_name
  get_by_name-Keeps name = search keeps_rules

  exists_by_email-Keeps : (email : Email) → Keeps (Links links) (Users.exists_by_email email)
  unfolding Users.exists_by_email
  exists_by_email-Keeps email = search keeps_rules

  log_success-Keeps :
      (actor : User) (action : ActionType) (resource : Text) (meta : RequestMeta) (id : Option ℕ)
      (before after diff : Option JsonDict)
      → Keeps (Links links) (log_success actor action resource meta id before after diff)
  unfolding log_success
  log_success-Keeps actor action resource meta id before after diff =
      Keeps-bind _ _ uuid4-Keeps (λ id.
        Keeps-bind _ _ (search keeps_rules) (λ now. log-Keeps _ (write-Keeps _ (λ db. refl))))

  load_roles-Keeps : (names : List Text) → Keeps (Links links) (load_roles names)
  unfolding load_roles
  load_roles-Keeps [] = search keeps_rules
  load_roles-Keeps (name ∷ names) = Keeps-bind _ _ (get_by_name-Keeps name) (λ found.
      Keeps-bind _ _ (search keeps_rules)
        (λ role. Keeps-bind _ _ (load_roles-Keeps names) (λ rest. search keeps_rules)))

ruleset links_rules = (
  keeps_rules, uuid4-Keeps, commit-Keeps, with_uow-Keeps, add-Keeps, get_by_name-Keeps,
  exists_by_email-Keeps, log_success-Keeps, load_roles-Keeps,
)

create_user-Keeps :
    {links : List UserRoleModel} (context : PasswordContext) (dto : CreateUserDto) (actor : User)
    (meta : RequestMeta)
    → Keeps (Links links) (create_user context dto actor meta)
unfolding create_user
create_user-Keeps context dto actor meta = search links_rules depth 30

register-Keeps :
    {links : List UserRoleModel} (context : PasswordContext) (dto : RegisterDto)
    (meta : RequestMeta)
    → Keeps (Links links) (register context dto meta)
unfolding register
register-Keeps context dto meta = search links_rules depth 30

-- Neither the creation of a user nor a registration links any role in the database, whatever roles
-- the entity that they return holds.
pub new_user_unlinked :
    (context : PasswordContext) (created : CreateUserDto) (registered : RegisterDto) (actor : User)
    (meta : RequestMeta) (w : World)
    → ((create_user context created actor meta w).1.committed.user_roles ≡ w.committed.user_roles)
      × ((register context registered meta w).1.committed.user_roles ≡ w.committed.user_roles)
unfolding create_user register with_uow
new_user_unlinked context created registered actor meta w =
    let w' = record w { session = w.committed } in
    (
      ((create_user-Keeps context created actor meta).at w' (refl, refl)).1,
      ((register-Keeps context registered meta).at w' (refl, refl)).1,
    )
