-- ===== src/Campaigns.antt =====
-- app/services/campaigns.py: drafts, contracts, publication, completion and the owner's transitions.
mod Drafts
mod Contracts
mod Lifecycle
unfoldable pub use Drafts.*
unfoldable pub use Contracts.*
unfoldable pub use Lifecycle.*
