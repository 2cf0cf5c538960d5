-- ===== src/Adapters.antt =====
-- app/adapters
pub mod Source
pub mod Springboot
pub mod Fastapi
pub mod FastapiTests
pub mod Notes
pub mod Registry
