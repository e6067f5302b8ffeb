-- ===== src/UseCases.antt =====
-- The use cases (app/application/use_cases): one action for each `execute`.
pub mod Auditing
pub mod Users
pub mod Roles
pub mod Records
pub mod Categories
pub mod Register
pub mod Login
pub mod Tokens
pub mod Dashboard
pub mod Atomicity
pub mod AuditTrail
pub mod TokenStore
