-- ===== src/Progress.antt =====
-- The assignments under the services, the requests and runs of requests, and the places of a
-- campaign.
pub mod Guards
pub mod Applications
pub mod Submissions
pub mod Disputes
pub mod Closing
pub mod Requests
pub mod Ids
pub mod Reach
pub mod Capacity
