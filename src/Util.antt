-- ===== src/Util.antt =====
-- include/gs++/util.hpp and src/util.cpp: byte readers, variable-length integers, hexadecimal text.
pub mod Reader
pub mod Bytes
pub mod VarInt
pub mod ReaderLaws
pub mod Hex
