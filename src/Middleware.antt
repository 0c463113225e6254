-- ===== src/Middleware.antt =====
-- The middleware of internal/httpapi: each takes the next handler and returns a handler.
pub mod Csrf
pub mod Cors
pub mod Authz
pub mod TrustedIp
pub mod LoginLimit
mod Examples
