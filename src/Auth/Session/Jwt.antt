-- ===== src/Auth/Session/Jwt.antt =====
-- auth/session/jwt/: sessions over signed tokens.
pub mod Claims
pub mod Codec
pub mod Source
pub mod Service
pub mod Middleware
pub mod Replay
pub mod Signed
mod Tests
