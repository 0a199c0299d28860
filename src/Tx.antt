-- ===== src/Tx.antt =====
-- Bitcoin Cash transactions: include/gs++/transaction.hpp, src/transaction.cpp and
-- include/gs++/output.hpp.
pub mod Types
pub mod Outputs
pub mod Hydrate
pub mod Safety
pub mod Encode
pub mod RoundTrip
pub mod Typed
