-- ===== src/Model.antt =====
-- The data model of app/models: the enumerations, the idempotency keys, the rows of each table, and
-- the database with its unique and check constraints.
pub mod Enums
pub mod Keys
pub mod Entities
