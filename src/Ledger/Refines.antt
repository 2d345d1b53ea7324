-- ===== src/Ledger/Refines.antt =====
-- The operations of the service against the steps of the specification.
pub mod Checkout
pub mod Session
pub mod Auth
pub mod Recording
pub mod Finalize
pub mod Admin
