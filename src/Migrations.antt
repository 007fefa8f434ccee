-- ===== src/Migrations.antt =====
-- migrations/versions: the three revisions of the database's schema. Alembic and the database are an
-- interface of operations on a schema.
pub mod Schema
pub mod Sample
pub mod Revisions
pub mod Reversal
mod Tests
