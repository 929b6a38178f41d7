-- ===== src/Service.antt =====
-- internal/http_server/service and internal/interfaces/service.
pub mod Email
pub mod Response
pub mod Web
pub mod Outcome
pub mod Fields
pub mod Users
pub mod Clients
pub mod Activities
pub mod Store
pub mod Reports
