-- ===== src/Operations.antt =====
-- The operations that the executor dispatches to (backup.go, check.go, create.go, restore.go, rm.go,
-- sync.go, test.go, inventory.go, prune.go, maintenance.go), over the libraries that they call.
pub mod Env
pub mod Connectors
pub mod Keys
pub mod Summaries
pub mod Backup
pub mod Check
pub mod Create
pub mod Restore
pub mod Remove
pub mod Synchronize
pub mod Probe
pub mod Inventories
pub mod Dispatch
pub mod Closing
pub mod Verdicts
pub mod Held
pub mod Copies
pub mod Removals
pub mod Listings
