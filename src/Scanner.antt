-- ===== src/Scanner.antt =====
-- internal/scanner: what the scanners build their snapshots with.
pub mod Builder
pub mod McpConfig
pub mod McpTopology
