-- ===== src/Topological.antt =====
-- `topological_sort` of src/util.cpp, which `block` and `bch` call.
pub mod Sort
pub mod Order
pub mod Visit
pub mod Correct
pub mod Examples
