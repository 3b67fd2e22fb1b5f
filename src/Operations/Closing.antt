-- ===== src/Operations/Closing.antt =====
-- Every operation closes what it opens, the last opened first, however it ends.
pub mod Connectors
pub mod Sources
pub mod Snapshots
pub mod Dispatched
