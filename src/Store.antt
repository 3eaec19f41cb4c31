-- ===== src/Store.antt =====
-- The state that the services of backend/internal/services act on: the PostgreSQL rows that they
-- read and write, the replies of Redis, and the trace of what they send out.
mod Model
mod Monad
mod Runs
mod Sessions
mod Payments
mod Keys
mod Promos
mod LoyaltyRows
mod MenuRows
mod Orders
pub use Model.*
pub use Monad.*
pub use Runs.*
unfoldable pub use Sessions.*
unfoldable pub use Payments.*
unfoldable pub use Keys.*
unfoldable pub use Promos.*
unfoldable pub use LoyaltyRows.*
unfoldable pub use MenuRows.*
unfoldable pub use Orders.*
