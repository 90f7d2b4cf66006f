-- ===== src/Scheduler.antt =====
-- src/scheduler.rs: the background task that checks the pooled proxies again.
pub mod Rechecker
pub mod Bookkeeping
pub mod Tracking
pub mod Pooling
