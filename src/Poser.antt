-- ===== src/Poser.antt =====
-- The well-posedness stage: src/icepick/processing/poser/.
pub mod Records
pub mod Cascade
