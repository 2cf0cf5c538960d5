-- ===== src/Services.antt =====
-- app/services
pub mod RepoPrep
