-- ===== src/SlpDb.antt =====
-- The token database: include/gs++/slpdb.hpp and include/gs++/slp_token.hpp.
pub mod Store
pub mod Supply
pub mod Edges
pub mod Tagged
pub mod Examples
