-- ===== src/Fsd.antt =====
-- internal/interfaces/fsd.
pub mod Command
pub mod Rating
pub mod Outcome
pub mod Distance
pub mod Broadcast
