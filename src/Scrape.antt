-- ===== src/Scrape.antt =====
-- The scraping of papers: src/icepick/allocation/scrape/.
pub mod Checkpoint
