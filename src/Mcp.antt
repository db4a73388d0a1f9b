-- ===== src/Mcp.antt =====
-- mcp_server/mcp_server: the MCP front door of the gateway.
pub mod Storage
pub mod Config
pub mod Auth
pub mod Bridge
pub mod LoginPage
pub mod Tools
pub mod Limiter
