-- ===== src/Graph.antt =====
-- The token graphs and the search in them: include/gs++/txgraph.hpp and src/txgraph.cpp.
pub mod Store
pub mod Search
pub mod Fresh
pub mod Correct
pub mod Ends
pub mod Closed
pub mod Sound
pub mod Reachable
pub mod Inserted
pub mod Nodes
pub mod Examples
pub mod Known
