-- ===== src/Hub.antt =====
-- internal/hub: what the hub makes of the snapshots.
pub mod Posture
pub mod Exposure
pub mod RateLimit
