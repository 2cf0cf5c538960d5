-- ===== src/Vcs.antt =====
-- app/vcs
pub mod Interface
pub mod Paths
pub mod Github
