-- ===== src/Server.antt =====
-- src/server.rs: how the local server answers a client, and src/utils.rs and src/negotiator.rs
-- where it calls them.
pub mod Heads
pub mod Headers
pub mod Requests
pub mod Relay
pub mod Handler
pub mod Commit
pub mod Secrets
pub mod Answers
pub mod Accounts
pub mod Ends
pub mod Choices
pub mod Socks
pub mod Login
pub mod Connection
pub mod Credentials
pub mod Allowed
pub mod Gate
