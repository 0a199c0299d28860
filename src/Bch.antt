-- ===== src/Bch.antt =====
-- The block and transaction processing: include/gs++/bch.hpp and src/bch.cpp.
pub mod Runs
pub mod Process
pub mod Utxos
pub mod Indexed
pub mod Lookups
pub mod Mempool
pub mod Bytes
pub mod Ends
pub mod Removed
pub mod Supply
pub mod Examples
