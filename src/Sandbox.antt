-- ===== src/Sandbox.antt =====
-- app/sandbox
pub mod Workspace
pub mod Confined
pub mod Written
pub mod Docker
