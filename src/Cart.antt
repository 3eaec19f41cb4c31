-- ===== src/Cart.antt =====
-- backend/internal/services/cart.go: the cart that the guests of a session share.
mod Modifiers
mod Items
pub mod Choices
unfoldable pub use Modifiers.*
unfoldable pub use Items.*
