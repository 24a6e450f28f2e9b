-- ===== src/Tests.antt =====
-- Examples: a small platform, runs on it, and the theorems applied to it.
pub mod Demo
pub mod Money
pub mod Parts
pub mod Lists
pub mod Api
pub mod Postgres
