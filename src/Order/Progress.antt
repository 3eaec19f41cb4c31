-- ===== src/Order/Progress.antt =====
-- UpdateOrderStatus and ListActiveForBranch of backend/internal/services/order.go.
use Prim.Native.String.{String}
use qr_dining.Base.{ℕ, ⊤, ◌&&◌, Option, none, some, List, [], ◌∷◌, ◌==◌}
use qr_dining.Base.Rows.{find?, select}
use qr_dining.Domain.{OrderStatus, validate_order_transition}
use qr_dining.Store.{
  World, Session, DiningTable, MenuItem, ModifierSnapshot, Order, OrderItem, Op, pure, fail,
  if_found, emit, ◌>>=◌, ◌>>◌, publish, log_event, by_staff, order_status_changed, is_live,
  get_order_by_id, update_order_status_expected, is_on_board,
}

-- Nothing is published for `pending`, which no update leads to.
unfoldable pub publish_order_status_event : ℕ → OrderStatus → Order → Op ⊤
publish_order_status_event session_id OrderStatus.pending order = pure tt
publish_order_status_event session_id status order =
    emit (publish session_id (order_status_changed order.id status))

-- The update of a row whose status allows it.
unfoldable pub apply_order_status : Order → ℕ → ℕ → OrderStatus → ℕ → Op Order
apply_order_status order order_id branch_id new_status staff_id = do
  updated ← update_order_status_expected order_id branch_id order.status new_status
  publish_order_status_event order.session_id new_status updated
  emit (
      log_event order.session_id order.branch_id by_staff staff_id
        (order_status_changed order_id new_status))
  pure updated

unfoldable pub update_order_status : ℕ → ℕ → OrderStatus → ℕ → Op Order
update_order_status order_id branch_id new_status staff_id = do
  order ← get_order_by_id order_id
  if_found (validate_order_transition order.status new_status) fail
      (apply_order_status order order_id branch_id new_status staff_id)

pub record KitchenOrderItem : Type 0 where
  pub menu_item_id : ℕ
  pub name : String
  pub quantity : ℕ
  pub modifiers : List ModifierSnapshot
  pub note : String

pub record KitchenOrder : Type 0 where
  pub order : Order
  pub table_identifier : String
  pub items : List KitchenOrderItem

abbrev ticket_line : List MenuItem → OrderItem → List KitchenOrderItem → List KitchenOrderItem
ticket_line menu i rest = elim (find? (λ (m : MenuItem). m.id == i.menu_item_id) menu) [
  | none ↦ rest
  | some m ↦
      record {
        menu_item_id = i.menu_item_id;
        name = m.name;
        quantity = i.quantity;
        modifiers = i.selected_modifiers;
        note = i.note;
      }
      ∷ rest
]

abbrev ticket_lines : List MenuItem → List OrderItem → List KitchenOrderItem
ticket_lines menu [] = []
ticket_lines menu (i ∷ is) = ticket_line menu i (ticket_lines menu is)

-- The session of an order, if it is live.
abbrev live_session_of : Order → World → Option Session
live_session_of o w = find? (λ s. s.id == o.session_id && is_live s.status) w.sessions

abbrev table_of : Option Session → World → Option DiningTable
table_of none w = none
table_of (some s) w = find? (λ t. t.id == s.table_id) w.tables

abbrev ticket : World → Order → List KitchenOrder → List KitchenOrder
ticket w o rest = elim (table_of (live_session_of o w) w) [
  | none ↦ rest
  | some t ↦
      record {
        order = o;
        table_identifier = t.identifier;
        items = ticket_lines w.menu_items (select (λ i. i.order_id == o.id) w.order_items);
      }
      ∷ rest
]

-- ORDER BY created_at ASC, where the rows are kept newest first: `later` are the tickets after these.
abbrev tickets : World → List Order → List KitchenOrder → List KitchenOrder
tickets w [] later = later
tickets w (o ∷ os) later = tickets w os (ticket w o later)

-- The orders on the boards of a branch's kitchen: not done, and of a live session.
unfoldable pub list_active_for_branch : ℕ → World → List KitchenOrder
list_active_for_branch branch_id w =
    tickets w (select (λ o. o.branch_id == branch_id && is_on_board o.status) w.orders) []
