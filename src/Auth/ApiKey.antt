-- ===== src/Auth/ApiKey.antt =====
-- auth/apikey/: the text of API keys.
pub mod Token
pub mod TokenText
pub mod Store
mod Tests
