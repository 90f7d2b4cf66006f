-- ===== src/Proxy.antt =====
-- src/proxy.rs: the value type of a proxy, and the operations that read and change it.
pub mod Trust
pub mod Record
pub mod Measures
pub mod Laws
