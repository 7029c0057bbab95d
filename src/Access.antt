-- ===== src/Access.antt =====
-- The access of plugins to the core: include/PluginPermissions.h and src/CoreAccessProxy.cpp.
pub mod Permissions
pub mod Calls
pub mod Proxy
pub mod Rights
pub mod Gated
pub mod Methods
pub mod Gate
mod Examples
