-- ===== src/Types.antt =====
-- src/types.rs: the shared vocabulary.
pub mod Proto
pub mod AnonLevel
pub mod Scheme
pub mod TypeSpec
pub mod Names
