-- ===== src/Encoding.antt =====
-- encoding/: base64url, base32 and hexadecimal text for bytes.
pub mod Bytes
pub mod Base64url
pub mod Base32
pub mod Hex
mod Tests
