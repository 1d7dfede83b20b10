-- ===== src/Mcp.antt =====
-- enterprise-mcp/enterprise_mcp: the configuration, the tools and the set of tools that is registered.
pub mod Config
pub mod Surface
pub mod Context
pub mod Health
pub mod Server
pub mod Scoped
pub mod Exposed
