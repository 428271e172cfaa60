-- ===== src/PassK.antt =====
-- The pass@k stage, src/icepick/processing/pass_at_k/.
pub mod Tally
pub mod Boxed
pub mod Checkpoint
pub mod Records
pub mod Sample
pub mod Score
pub mod Run
