-- ===== src/Graph.antt =====
-- app/graph
pub mod Routing
pub mod Diffs
pub mod Nodes
pub mod Build
