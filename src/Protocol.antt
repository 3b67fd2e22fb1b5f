-- ===== src/Protocol.antt =====
-- protocol.go and report.go: the messages on stdin and stdout, and the resolved configurations.
pub mod Messages
pub mod Reports
pub mod Configurations
pub mod IndexedLists
