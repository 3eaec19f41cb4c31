-- ===== src/Billing.antt =====
-- backend/internal/handlers/billing.go: the itemized bill of a session.
mod Bill
pub mod Sums
unfoldable pub use Bill.*
