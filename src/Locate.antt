-- ===== src/Locate.antt =====
-- locate.go and prune.go: the locate options that a task config asks for.
pub mod Parsing
pub mod Options
pub mod Windows
pub mod Precedence
pub mod Grouping
