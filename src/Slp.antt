-- ===== src/Slp.antt =====
-- The SLP message of a transaction: include/gs++/slp_transaction.hpp and src/slp_transaction.cpp.
pub mod Message
pub mod Chunks
pub mod Parse
pub mod Sound
pub mod Pushes
pub mod Script
pub mod Fields
pub mod Sizes
pub mod RoundTrip
pub mod Termination
