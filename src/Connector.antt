-- ===== src/Connector.antt =====
-- src/connector.rs: the connector that dials each connection through a proxy of the pool.
pub mod Dialing
pub mod Outcomes
pub mod Ends
