-- ===== src/Graph/Routing.antt =====
-- app/graph/routing.py: the routers, and what holds of the waves that they send.
mod Router
pub mod Waves
pub mod Ready
unfoldable pub use Router.*
