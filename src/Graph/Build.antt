-- ===== src/Graph/Build.antt =====
-- app/graph/build.py: the wiring of the nodes, as a machine. A point is the node that runs next; the
-- environment answers for everything outside the repository.
pub mod Machine
pub mod Weight
pub mod Updates
pub mod Sandbox
pub mod Draftless
pub mod Frame
pub mod Review
pub mod Reviewed
pub mod Reach
pub mod Lifecycle
pub mod Refinement
pub mod Approved
pub mod Decided
pub mod Measure
pub mod Steps
pub mod Termination
pub mod Shipping
pub mod Soundness
pub mod Shipped
pub mod Consent
pub mod Retries
pub mod Workspace
