-- ===== src/Tests.antt =====
-- Sample runs, and the properties at concrete inputs.
pub mod Samples
mod Runs
mod Parts
mod Reached
mod Edges
mod Github
mod Prompts
mod Served
