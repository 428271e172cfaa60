-- ===== src/Batcher.antt =====
-- The bulk batcher, src/icepick/batcher/.
pub mod JsonLines
pub mod Ledger
pub mod Identity
pub mod Journal
pub mod Disk
pub mod State
pub mod Slicer
pub mod World
pub mod Cut
pub mod Recover
pub mod Stages
pub mod Queue
pub mod Watch
pub mod Dispatch
pub mod Tick
pub mod Run
pub mod Backfill
