-- ===== src/Workflow.antt =====
-- app/services/workflow.py: applications, testing, evidence, reviews, messages and disputes.
pub mod StorageKey
pub mod Steps
mod Applications
mod Testing
mod Submissions
mod Reviews
mod Disputes
unfoldable pub use Applications.*
unfoldable pub use Testing.*
unfoldable pub use Submissions.*
unfoldable pub use Reviews.*
unfoldable pub use Disputes.*
