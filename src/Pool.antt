-- ===== src/Pool.antt =====
-- src/server.rs: the pool of checked proxies that the server, the connector, the re-checker and
-- the file watcher share.
pub mod State
pub mod Select
pub mod Steps
pub mod Get
pub mod Tiers
pub mod Ranking
pub mod Choice
pub mod BestFor
pub mod Strategies
pub mod Checkout
pub mod Waiting
pub mod Leasing
pub mod Contents
pub mod Totals
