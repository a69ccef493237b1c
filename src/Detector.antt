-- ===== src/Detector.antt =====
-- internal/detector: the packs of detectors.
pub mod Pack
