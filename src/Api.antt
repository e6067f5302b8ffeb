-- ===== src/Api.antt =====
-- app/api/v1, app/api/schemas, app/core/exceptions.py, app/middleware and app/main.py: the requests,
-- the guards, the endpoints, and how a result becomes a response.
pub mod Http
pub mod Responses
pub mod Auth
pub mod Users
pub mod Roles
pub mod Categories
pub mod Records
pub mod Dashboards
pub mod Routes
pub mod Health
