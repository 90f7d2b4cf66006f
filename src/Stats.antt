-- ===== src/Stats.antt =====
-- src/stats.rs: the statistics over the proxies that have been checked.
pub mod Collector
pub mod Tally
