-- ===== src/Discovery.antt =====
-- pkg/discovery: the snapshot contract that the collectors and the Hub share.
pub mod Values
pub mod Types
pub mod Privacy
pub mod Urls
pub mod Validation
pub mod Merge
pub mod Digest
pub mod RuntimeIdentity
