-- ===== src/Tests.antt =====
-- A small project with one invoice, on which the theorems are tried.
pub mod Fixtures
pub mod Tables
pub mod Flow
pub mod Services
pub mod Units
pub mod Server
pub mod Tenants
pub mod Together
pub mod Overlap
pub mod Admin
pub mod Live
