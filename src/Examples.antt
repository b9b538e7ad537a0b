-- ===== src/Examples.antt =====
-- The theorems at concrete databases.
pub mod Databases
pub mod Ledger
pub mod Assignments
pub mod Access
pub mod Limiter
pub mod Capacity
pub mod Reading
pub mod Evidence
pub mod Deployment
