-- ===== src/Ip.antt =====
-- ip/: the address of a client.
pub mod Extract
pub mod Trust
mod Tests
