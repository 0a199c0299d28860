-- ===== src/UtxoDb.antt =====
-- The set of unspent outputs: include/gs++/utxodb.hpp and src/utxodb.cpp.
pub mod Store
pub mod Index
pub mod Answers
pub mod Rollback
pub mod Examples
