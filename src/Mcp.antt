-- ===== src/Mcp.antt =====
-- internal/mcpprobe, less its baseline, with the code of the engine and of the command line that
-- decides whether it runs.
pub mod Client
pub mod Stdio
pub mod Http
pub mod Specs
pub mod Probe
pub mod Gate
