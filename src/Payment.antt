-- ===== src/Payment.antt =====
-- khazina/internal/payment: the checkout and payment business logic.
pub mod Types
pub mod State
pub mod Checkout
pub mod Initiate
pub mod Auth
pub mod Finalize
