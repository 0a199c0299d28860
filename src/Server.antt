-- ===== src/Server.antt =====
-- The handlers of the server, server/gs++.cpp.
pub mod Search
pub mod Answers
pub mod Validation
pub mod Samples
pub mod Sync
pub mod Tokens
pub mod Listener
pub mod Examples
