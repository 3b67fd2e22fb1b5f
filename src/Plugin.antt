-- ===== src/Plugin.antt =====
-- plugin/: the registry of connector plugins, the connections to them, and the load and unload
-- hooks of pkgplugin.go.
pub mod Registry
pub mod Registered
pub mod Lifecycle
pub mod Keys
pub mod Hooks
pub mod Connection
