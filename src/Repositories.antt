-- ===== src/Repositories.antt =====
-- The repositories (app/infrastructure/repositories): queries and writes of one session.
pub mod Paging
pub mod Pending
pub mod Users
pub mod Roles
pub mod Permissions
pub mod Categories
pub mod Records
pub mod Aggregates
pub mod Cached
pub mod Audit
