-- ===== src/Tests.antt =====
-- The theorems at concrete inputs, and runs of the definitions.
mod Samplers
mod Plugins
mod Configs
mod Events
mod Environment
mod Runs
