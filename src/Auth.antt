-- ===== src/Auth.antt =====
-- auth/: who a request comes from.
pub mod Session
pub mod ApiKey
