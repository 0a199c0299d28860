-- ===== src/Fuzz.antt =====
-- The JavaScript targets of the differential fuzzer: fuzz/nodejs_validation and fuzz/slp-parser.js.
pub mod Report
pub mod Laws
pub mod Parser
pub mod Examples
