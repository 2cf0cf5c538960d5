-- ===== src/Graph/Diffs.antt =====
-- app/graph/diffs.py: which generated files are the effective output of a run.
pub mod Effective
pub mod Stale
pub mod Sources
pub mod Removal
