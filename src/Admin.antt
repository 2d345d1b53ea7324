-- ===== src/Admin.antt =====
-- khazina/internal/admin: the API that creates organizations, projects, gateway accounts and invoices.
pub mod Types
pub mod Service
pub mod Handlers
pub mod Accounts
pub mod Amounts
pub mod Access
