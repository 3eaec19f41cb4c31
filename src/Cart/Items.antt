-- ===== src/Cart/Items.antt =====
-- GetCart, AddItem and RemoveItem of backend/internal/services/cart.go.
use Prim.Native.String.{String}
use qr_dining.Base.{ℕ, ⊤, not, List, ◌==◌}
use qr_dining.Domain.{
  is_session_cart_frozen, is_session_terminal, payment_in_progress, session_closed,
  menu_item_unavailable, cart_item_not_found,
}
use qr_dining.Store.{
  Session, Cart, CartItem, ListCartItemsRow, Op, pure, gets, fail_if, emit, ◌>>=◌, ◌>>◌, publish,
  log_event, by_participant, cart_item_added, cart_item_removed, get_session_by_id,
  get_menu_item_by_id, get_or_create_session_cart, add_cart_item, get_cart_item, remove_cart_item,
  list_cart_items,
}
use qr_dining.Cart.Modifiers.{snapshot_modifiers}

pub record AddItemRequest : Type 0 where
  pub session_id : ℕ
  pub participant_id : ℕ
  pub menu_item_id : ℕ
  pub quantity : ℕ
  pub modifier_ids : List ℕ
  pub note : String

pub record CartResponse : Type 0 where
  pub cart : Cart
  pub items : List ListCartItemsRow

unfoldable pub get_cart : ℕ → Op CartResponse
get_cart session_id = do
  cart ← get_or_create_session_cart session_id
  items ← gets (list_cart_items cart.id)
  pure (record { cart = cart; items = items })

-- The session, unless its cart is frozen or it is over.
unfoldable pub open_cart : ℕ → Op Session
open_cart session_id = do
  sess ← get_session_by_id session_id
  fail_if (is_session_cart_frozen sess.status) payment_in_progress
  fail_if (is_session_terminal sess.status) session_closed
  pure sess

unfoldable pub add_item : AddItemRequest → Op CartItem
add_item req = do
  sess ← open_cart req.session_id
  menu_item ← get_menu_item_by_id req.menu_item_id
  fail_if (not menu_item.is_available) menu_item_unavailable
  modifiers ← snapshot_modifiers req.menu_item_id req.modifier_ids
  cart ← get_or_create_session_cart req.session_id
  item ← add_cart_item cart.id req.menu_item_id req.quantity modifiers req.note
  emit (publish req.session_id (cart_item_added item))
  emit (
      log_event req.session_id menu_item.branch_id by_participant req.participant_id
        (cart_item_added item))
  pure item

unfoldable pub remove_item : ℕ → ℕ → ℕ → Op ⊤
remove_item session_id participant_id item_id = do
  sess ← open_cart session_id
  cart ← get_or_create_session_cart session_id
  item ← get_cart_item item_id
  fail_if (not (item.cart_id == cart.id)) cart_item_not_found
  remove_cart_item cart.id item_id
  emit (publish session_id (cart_item_removed item_id))
  emit (
      log_event session_id sess.branch_id by_participant participant_id (cart_item_removed item_id))
