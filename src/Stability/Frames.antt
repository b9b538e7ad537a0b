-- ===== src/Stability/Frames.antt =====
-- Predicates that read few tables, and what is left to show of them.
pub mod Credits
pub mod Assignments
pub mod Posting
