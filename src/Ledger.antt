-- ===== src/Ledger.antt =====
-- The abstract specification of the payment service (khazina/internal/payment/service.go) and of the
-- admin service (khazina/internal/admin/service.go) over their tables: the steps by which they may
-- change the database and call the gateway, and when each is allowed. Ledger/Refines relates the
-- operations to the steps.
pub mod Step
pub mod Inv
pub mod Sql
pub mod Books
pub mod Billing
pub mod Inserts
pub mod Decides
pub mod Indexed
pub mod Keeps
pub mod Placed
pub mod Settled
pub mod Refines
pub mod Tenants
pub mod Unrefused
pub mod Traffic
pub mod Isolated
pub mod Charges
pub mod Guards
pub mod Idempotent
pub mod Taken
pub mod Completes
