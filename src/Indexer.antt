-- ===== src/Indexer.antt =====
-- The event indexer (indexer/src): it folds the messages of the BolaoCore program into tables.
pub mod Entities
pub mod Events
pub mod Outcome
pub mod State
pub mod Handlers
pub mod Store
pub mod Preload
pub mod Accuracy
pub mod Process
pub mod Stats
pub mod Batch
pub mod Matches
pub mod Table
mod Examples
