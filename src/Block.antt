-- ===== src/Block.antt =====
-- Blocks: include/gs++/block.hpp and src/block.cpp.
pub mod Codec
pub mod RoundTrip
