-- ===== src/Vcs/Paths.antt =====
-- app/vcs/paths.py. What Python's `re` and `str` know of the characters beyond ASCII is a parameter:
-- which of them `\w` matches, and what `lower` makes of a text that has one.
mod Checks
pub mod Safety
unfoldable pub use Checks.*
