-- ===== src/Cache.antt =====
-- cache/: the in-memory least-recently-used cache.
pub mod Lru
