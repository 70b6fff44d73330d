-- ===== src/Store/Postgres.antt =====
-- internal/store/postgres: the two stores over the tables, and what they keep.
pub mod Run
pub mod Users
pub mod Credentials
pub mod SoftDelete
pub mod Rows
pub mod Consistent
pub mod Effects
pub mod LastCredential
pub mod Race
