-- ===== src/Middleware.antt =====
-- internal/http_server/middleware.
pub mod Limiter
