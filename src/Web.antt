-- ===== src/Web.antt =====
-- khazina/internal/web and tenant: requests, the middlewares and handlers around the payment
-- service, and the replies to its errors.
pub mod Errors
pub mod Replies
pub mod Request
pub mod Tenant
pub mod Cors
pub mod Texts
pub mod Respond
pub mod Handlers
pub mod Router
pub mod Build
pub mod Outcome
pub mod Administration
pub mod Traffic
pub mod Server
pub mod Hosting
pub mod Isolation
