-- ===== src/Listener.antt =====
-- listener.go: the event listener. The bus is the list of its events, in the order in which the
-- listener's goroutine takes them; each event and each `State()` runs under the mutex.
pub mod Events
pub mod Kinds
pub mod Names
pub mod RecentPaths
pub mod Update
pub mod Handler
pub mod Counters
pub mod Volumes
pub mod Windows
pub mod Readings
pub mod Scopes
