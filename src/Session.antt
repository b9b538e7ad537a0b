-- ===== src/Session.antt =====
-- The SQLAlchemy session of app/db/session.py with the tables that it reads and writes, the errors
-- that a service raises, and the monad of the services. The supply of fresh UUIDs and the readings
-- of the clock come from outside and are fields of the session.
mod Defs
mod Rows
pub mod Keeps
pub mod Wp
pub mod Inversion
pub mod Reads
unfoldable pub use Defs.*
unfoldable pub use Rows.*
