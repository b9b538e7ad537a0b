-- ===== src/Stability.antt =====
-- A predicate that the operations on single rows and the two of the credit service keep is kept by
-- every service. One structural pass, for every such predicate at once.
pub mod Basics
pub mod Campaigns
pub mod Workflow
pub mod Moderation
pub mod Profiles
pub mod Reading
pub mod Routes
pub mod Frames
