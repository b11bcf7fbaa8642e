-- ===== src/Job.antt =====
-- job/: the queue in the table `jobs`. Enqueuer, Worker and Maintenance model the statements of
-- enqueuer.rs, worker.rs, and of reaper.rs with cleanup.rs; Table is the table itself.
pub mod Table
pub mod Enqueuer
pub mod Worker
pub mod Maintenance
pub mod Invariant
pub mod Retry
pub mod Claiming
pub mod Lifecycle
pub mod Dedup
pub mod Upkeep
mod Tests
