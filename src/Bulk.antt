-- ===== src/Bulk.antt =====
-- The bulk acquisition of papers: src/icepick/allocation/bulk.
pub mod ChunkStore
