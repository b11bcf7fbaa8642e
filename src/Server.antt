-- ===== src/Server.antt =====
-- server/: the part that chooses a router by the request's host.
pub mod HostRouter
