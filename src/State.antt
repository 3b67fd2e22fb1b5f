-- ===== src/State.antt =====
-- state.go: the state that a job streams, its parts, and the operations on it.
-- A nil slice or map and an empty one are both the empty list. A float64 is its bit pattern.
mod Types
pub mod Equality
unfoldable pub use Types.*
