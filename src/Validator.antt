-- ===== src/Validator.antt =====
-- The judgement of SLP transactions: include/gs++/slp_validator.hpp and src/slp_validator.cpp.
pub mod State
pub mod Check
pub mod Send
pub mod Worth
pub mod Mint
pub mod Invariant
pub mod Total
pub mod Adds
pub mod Inputs
pub mod InputLaws
pub mod Examples
