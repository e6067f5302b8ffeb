-- ===== src/Entities.antt =====
-- The domain entities (app/domain/entities) and their enumerations (app/domain/enums).
pub mod Enums
pub mod Ids
pub mod Permission
pub mod Role
pub mod User
pub mod Category
pub mod Record
pub mod Audit
