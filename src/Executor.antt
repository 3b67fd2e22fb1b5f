-- ===== src/Executor.antt =====
-- plaklet.go: `Main`, and what runs beside the operation.
pub mod Terminal
pub mod Sampling
pub mod Main
pub mod Endings
pub mod Runs
pub mod Replies
