-- ===== src/Packet.antt =====
-- internal/fsd_server/packet.
pub mod Lines
pub mod Framing
pub mod State
pub mod Monad
pub mod Registry
pub mod Client
pub mod Updates
pub mod Sending
pub mod Manager
pub mod Login
pub mod Positions
pub mod Messages
pub mod PlanHandlers
pub mod Commands
pub mod Ends
pub mod Safety
pub mod Invariant
