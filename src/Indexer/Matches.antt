-- ===== src/Indexer/Matches.antt =====
-- The table of matches, seen one match at a time: a small state machine that the messages drive.
pub mod Machine
pub mod Refinement
