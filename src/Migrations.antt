-- ===== src/Migrations.antt =====
-- The migrations of the database (src/database/migrations): the schema and the statements, the
-- eight migrations, and what running and reverting them leads to.
pub mod Schema
pub mod Initial
pub mod Shopping
pub mod Steps
pub mod Deploying
pub mod OpenCarts
pub mod Declared
