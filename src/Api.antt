-- ===== src/Api.antt =====
-- app/api/routes, app/core/auth.py and `get_db` of app/db/session.py: who may make a request, which
-- function it calls, and that it is one transaction.
pub mod Requests
pub mod Invariants
pub mod Ledger
pub mod Access
pub mod Queries
pub mod Unchanged
pub mod Workspaces
