-- ===== src/Order.antt =====
-- backend/internal/services/order.go: how orders are placed and moved along.
mod Requests
mod Lines
mod Place
mod Progress
pub mod Admission
pub mod Freezing
pub mod Recording
pub mod Keeping
pub mod Committing
pub mod Idempotence
pub mod Retrying
unfoldable pub use Requests.*
unfoldable pub use Lines.*
unfoldable pub use Place.*
unfoldable pub use Progress.*
