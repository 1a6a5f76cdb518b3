-- ===== src/Indexer/Stats.antt =====
-- The user statistics: what each message adds to them, as a fold over the messages of a batch.
pub mod Spec
pub mod Touch
pub mod Load
pub mod Accuracy
pub mod Fold
pub mod Tallies
