-- ===== src/Mpgs.antt =====
-- khazina/internal/clients/mpgs: the client of the payment gateway.
pub mod Types
pub mod Client
pub mod Calls
