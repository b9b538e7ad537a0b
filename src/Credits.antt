-- ===== src/Credits.antt =====
-- app/services/credits.py: the accounts and the append-only ledger.
mod Defs
pub mod Balance
pub mod Purposes
pub mod Steps
pub mod Ledger
pub mod Charging
pub mod Repeats
unfoldable pub use Defs.*
