-- ===== src/Graph/Nodes/Publish.antt =====
-- app/graph/nodes/pr_publish.py
mod Node
pub mod Policy
unfoldable pub use Node.*
