-- ===== src/Checker.antt =====
-- src/checker.rs: checking a proxy.
pub mod Check
pub mod Response
pub mod Setup
pub mod Attempt
pub mod Reading
pub mod Evidence
pub mod Ready
pub mod Working
pub mod Confirmed
pub mod Admission
pub mod Attempts
pub mod Verdict
