-- ===== src/Auth/Session.antt =====
-- auth/session/: session tokens.
pub mod Token
pub mod TokenText
pub mod Store
pub mod Data
pub mod Samples
pub mod Cookie
pub mod Jwt
mod Tests
