-- ===== src/Connectors.antt =====
-- khazina/internal/connectors and khazina/internal/crypto: the kinds of gateway, and the stored
-- credentials of a gateway account.
pub mod Types
pub mod Crypto
pub mod Credentials
pub mod Complete
pub mod Registry
pub mod Metadata
pub mod Demands
