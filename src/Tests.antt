-- ===== src/Tests.antt =====
-- Runs of the program on small inputs: src/icepick/.
mod Data
mod Ledger
mod State
mod Journal
mod Slicer
mod Cut
mod Bulk
mod Daemon
mod Scoring
mod PassRun
mod Cascade
mod Scrape
mod Lora
