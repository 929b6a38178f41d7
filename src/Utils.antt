-- ===== src/Utils.antt =====
-- internal/utils.
pub mod Cast
pub mod Format
pub mod Trigger
pub mod Cache
pub mod Slices
