-- ===== src/Base.antt =====
-- internal/base.
pub mod Cleaner
