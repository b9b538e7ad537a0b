-- ===== src/Reading.antt =====
-- The queries of app/services that only read. A new row stands first in its table, so a table is in
-- the order of `created_at`, the latest first: `created_at.desc()` is the table's order. Rows that
-- one transaction makes have the same `created_at` from the server, but for the items of evidence,
-- which have a column for it.
mod Accounts
mod Workspaces
mod Cases
unfoldable pub use Accounts.*
unfoldable pub use Workspaces.*
unfoldable pub use Cases.*
