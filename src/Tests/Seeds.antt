-- ===== src/Tests/Seeds.antt =====
-- Seeding.
use financial_data.Prelude.{◌≡◌, refl, List, [], ◌∷◌}
use financial_data.Text.{Text, lit}
use financial_data.Result.{ok}
use financial_data.World.{World}
use financial_data.Seed.{seed_permissions}
use financial_data.Seed.Again.{seed_permissions_again}
use financial_data.Tests.Sample.{world}

-- One that is there and one that is not.
abbrev wanted : List Text
wanted = lit "records:read" ∷ lit "roles:manage" ∷ []

abbrev seeded_world : World
seeded_world = (seed_permissions wanted world).1

seed_permissions_again_example :
    seed_permissions wanted seeded_world
    ≡ (ok ((lit "records:read", 3) ∷ (lit "roles:manage", 100) ∷ []), seeded_world)
unfolding seed_permissions financial_data.World.◌>>=◌ financial_data.TokenService.scalar_one_or_none
    financial_data.Prelude.select financial_data.Text.text_eq financial_data.World.uuid4
    financial_data.World.utcnow
seed_permissions_again_example =
    seed_permissions_again wanted ((lit "records:read", 3) ∷ (lit "roles:manage", 100) ∷ []) world
      seeded_world (refl)
