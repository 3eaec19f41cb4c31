-- ===== src/Payment.antt =====
-- backend/internal/services/payment.go: how a session is paid. Its children are the parts of the
-- service, and what the modules for proofs show of them.
mod Requests
mod Settlement
mod Initiate
mod Webhook
pub mod Settling
pub mod Releasing
pub mod Cancelling
pub mod Forcing
pub use Requests.*
unfoldable pub use Settlement.*
unfoldable pub use Initiate.*
unfoldable pub use Webhook.*
