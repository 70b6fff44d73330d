-- ===== src/Store.antt =====
-- internal/store
pub mod Tables
pub mod Postgres
pub mod Redis
