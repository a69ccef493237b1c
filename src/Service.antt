-- ===== src/Service.antt =====
-- internal/service: how the command is installed and started again.
pub mod Elevation
