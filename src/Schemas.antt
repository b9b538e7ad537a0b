-- ===== src/Schemas.antt =====
-- app/schemas/api.py: the field checks of the request bodies, and the responses.
mod Fields
mod Bodies
mod Reads
mod Records
mod Nested
unfoldable pub use Fields.*
unfoldable pub use Bodies.*
unfoldable pub use Records.*
unfoldable pub use Reads.*
unfoldable pub use Nested.*
