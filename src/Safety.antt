-- ===== src/Safety.antt =====
-- What the services keep of the rows, whatever is called and however the calls end: the unique indexes
-- of sessions and payments, the transition tables of the domain for the status of a session and of an
-- order, and the books, the orders with their lines.
mod Rules
mod Queries
mod Sessions
mod PaymentRows
mod Payments
mod Charges
mod Orders
mod Transactions
mod Placing
mod Ordering
mod Workers
pub mod Steps
pub mod Bills
pub use Rules.*
