-- ===== src/Parse.antt =====
-- src/parse.rs and src/provider.rs: addresses in a text, and the candidates of a page.
pub mod Scan
pub mod Extract
pub mod Found
pub mod Ends
pub mod Files
