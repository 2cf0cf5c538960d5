-- ===== src/Core.antt =====
-- app/core
pub mod Slug
pub mod Tokens
pub mod Describe
pub mod SlugChars
pub mod Observability
pub mod Llm
