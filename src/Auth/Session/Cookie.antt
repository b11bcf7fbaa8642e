-- ===== src/Auth/Session/Cookie.antt =====
-- auth/session/cookie/: sessions over a signed cookie.
pub mod Service
pub mod Extractor
pub mod Lifecycle
pub mod Middleware
pub mod Requests
mod Tests
