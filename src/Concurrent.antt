-- ===== src/Concurrent.antt =====
-- Calls of the payment service (khazina/internal/payment/service.go) and of the admin service
-- (khazina/internal/admin/service.go) that run at the same time, as the server runs them for
-- requests that overlap. A call is a program; between any two of its calls
-- of the database, the clock and the gateway those of other programs may come. One SQL statement, or
-- one transaction from Begin to Commit, is one call of the database.
pub mod Program
pub mod Finalize
pub mod Change
pub mod Pool
pub mod Safe
pub mod Turns
pub mod Calls
pub mod Ready
pub mod Ending
pub mod Auth
pub mod Initiate
pub mod Checkout
pub mod Admin
pub mod Rules
pub mod Many
pub mod Server
pub mod Sequential
pub mod Http
