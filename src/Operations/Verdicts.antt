-- ===== src/Operations/Verdicts.antt =====
-- What the operations return when they return no error outright.
pub mod Kinds
pub mod Counts
pub mod Sources
pub mod Snapshots
pub mod Dispatched
