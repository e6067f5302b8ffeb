-- ===== src/Lib.antt =====
-- financial_data: a service that keeps the financial records of users, with roles and permissions,
-- tokens, an audit log and cached dashboards, written in layers: a domain without input or output,
-- use cases over a unit of work, and repositories over a database and a cache. This library models
-- the code from the value objects up to the HTTP API, and shows what makes it correct.
--
-- The parts, and the files that model them:
-- - Text, Text/Laws, Text/Sets: Python's str as a list of code points, with the strip, lower and in
--   that the program uses; Prelude and its modules: Boolean tests, lists, integers.
-- - Result: the exceptions that the code raises, as values, with the messages of their guards.
-- - Money, Email, Password, DateRange: app/domain/value_objects. An amount is the integer of its
--   cents; a day is its ordinal. Email/Grammar is an independent description of the addresses.
-- - Json: the comparison of two snapshots, of app/domain/entities/record.py, which the use cases of
--   categories and roles repeat.
-- - Entities: app/domain/enums and app/domain/entities, a module per class. A method that changes an
--   object is a function to the object after it.
-- - Crypto: passlib, hashlib and python-jose, as records of functions with the laws that their
--   documentation promises.
-- - CacheKeys, Cache: app/infrastructure/redis/cache_service.py over a key-value store with expiry,
--   and the keys that the program prints, kept as data.
-- - Database: the rows of app/infrastructure/database/models and the mappers of
--   app/infrastructure/repositories/mappers.py.
-- - World: the state of a request and the unit of work of app/infrastructure/database/uow.py. An action is a
--   function from a state to a result and a state, so what was done before a raise stays done.
--   World/Run runs actions step by step, World/Keeps and World/Pending carry invariants through them.
-- - Repositories: app/infrastructure/repositories. A query reads the session, a write changes the
--   session only. Repositories/Records and Repositories/Cached are the decorator of cached_repo.py
--   around record_repo.py, its writes and its cached reads; Repositories/Aggregates are the two
--   grouping queries of record_repo.py. Repositories/Audit/Laws says when the database takes an audit entry.
-- - TokenService: app/infrastructure/security/token_service.py, with sessions of its own, so that its
--   writes are visible at once.
-- - UseCases: app/application/use_cases, a function for each execute method, with the order of its
--   guards, writes and audit entries; UseCases/Tokens also holds the guards of
--   app/core/dependencies.py. UseCases/Dashboard/History and UseCases/Dashboard/Expiry
--   run requests one after the other, and UseCases/AuditTrail and UseCases/TokenStore
--   follow the audit log and the refresh tokens through every use case.
-- - Api: app/api/v1, app/api/schemas, app/core/exceptions.py and app/middleware. Api/Http holds what an
--   endpoint gets and the guards as the endpoints combine them, Api/Responses the schemas and mappers,
--   Api/Auth, Users, Roles, Categories, Records, Dashboards and Health the endpoints, and Api/Routes
--   the routes, the error handlers and the order of the layers.
-- - Seed: scripts/seed.py and the codenames of app/domain/enums/permission_enum.py.
-- - Tests: sample data and runs.
--
-- How the parts interact: a use case opens a session from what is committed, checks, loads entities
-- through the repositories, changes them, stores them, logs an audit entry and commits; leaving the
-- session discards what was not committed. Users come back from the database with their email
-- validated again and their roles and permissions joined in. Writes of records also drop cached
-- dashboards. Logins count their failures in the cache, and access tokens are refused while their
-- identifier is listed there. An endpoint checks the token and its permission, loads the user of the
-- token as the actor, runs a use case, and turns some of its exceptions into the program's own, which
-- have status codes; any other exception is answered by the catch-all with 500.
--
-- What the model takes for granted: texts are ASCII; the clock is read once for a request; the
-- identifiers and salts that are drawn come from a stream; a query by primary key takes the first
-- row; foreign keys but that of an audit entry, lengths of columns but its own, onupdate
-- columns and server defaults are the database's; ORDER BY, ilike and
-- the full-text operator are parameters; a decimal context is Python's default one. A cache that
-- does not answer misses every read and loses every write. No definition needs fuel: every loop of
-- the program runs over a list. A day count and an amount are unbounded but for the program's own
-- limits.
--
-- At the API, bodies and query parameters are taken as they are after parsing, with the validators of
-- the schemas run; page numbers and limits are not negative; HTTPBearer is a parameter; a response is
-- its status, its body and its X-Request-ID. The layers stand in Starlette's order: the handler of
-- unexpected exceptions outside, then RequestIDMiddleware, then the handlers of the program's own
-- exceptions. The cached dashboards hold what is put there; the printing of their values as JSON and
-- back is not modelled.
--
-- Not modelled: DateRange.current_month and the methods that print and hash; app/middleware/logging.py, which only logs, and the CORS settings;
-- app/core/config.py and app/core/containers.py, which wire; app/infrastructure/redis/redis.py, which
-- connects; alembic, which holds the schema.
pub mod Prelude
pub mod Text
pub mod Result
pub mod Money
pub mod Email
pub mod Crypto
pub mod Password
pub mod DateRange
pub mod Json
pub mod Entities
pub mod CacheKeys
pub mod Database
pub mod World
pub mod Cache
pub mod Repositories
pub mod UseCases
pub mod Api
pub mod Seed
pub mod TokenService
mod Tests
