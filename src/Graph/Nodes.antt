-- ===== src/Graph/Nodes.antt =====
-- app/graph/nodes: a module for each node. A node takes what it reads of the state, the readings of
-- the clock, and the answer of its collaborator, and returns its update.
-- Retries, Links and Plans state what the nodes write.
pub mod Budget
pub mod Editor
pub mod ErrorAnalysis
pub mod Approval
pub mod Comprehension
pub mod Synthesis
pub mod SandboxTest
pub mod Aggregate
pub mod Publish
pub mod Retries
pub mod Links
pub mod Fresh
pub mod Plans
pub mod Prompts
