-- ===== src/Mcp.antt =====
-- internal/mcp: the clients of MCP servers, the runtime that holds them, and the registry of tools.
-- Every operation runs under its lock, so each is one step.
pub mod Protocol
pub mod Client
pub mod Runtime
pub mod Registry
