-- ===== src/Managed.antt =====
-- internal/managed: the collector that runs on an endpoint.
pub mod Collector
pub mod Events
pub mod Profiles
pub mod Quick
