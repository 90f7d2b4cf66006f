-- ===== src/Broker.antt =====
-- src/broker.rs: from the candidates of the providers to the proxies of a stream.
pub mod Grab
pub mod Sources
pub mod Grabbed
pub mod Pipeline
pub mod Limits
pub mod Emitted
pub mod Complete
pub mod Progress
pub mod Builder
pub mod Query
pub mod Proved
