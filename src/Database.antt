-- ===== src/Database.antt =====
-- internal/database and internal/interfaces/operation.
pub mod Model
pub mod Plans
pub mod Activity
pub mod Permission
pub mod Accounts
pub mod Signups
pub mod Histories
