-- ===== src/Indexer/Batch.antt =====
-- A batch as a whole: what its messages are, and what running it does to the tables.
pub mod Messages
pub mod Counted
pub mod Preloaded
pub mod Saved
pub mod Totals
pub mod Stats
pub mod Bonus
