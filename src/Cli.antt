-- ===== src/Cli.antt =====
-- src/bin/proxybroker.rs: the command line.
pub mod Arguments
pub mod Rendering
pub mod Emitter
pub mod Written
pub mod Merged
