-- ===== src/Store/Orders.antt =====
-- The queries on orders: backend/internal/repository/order.go with the SQL text of
-- backend/internal/db/sqlc/orders.sql.go. New orders stand first, which is ORDER BY created_at DESC;
-- new lines stand last, which is ORDER BY id ASC.
use text.Mathlib.Text.{◌==◌ as str_eq}
use qr_dining.Base.{
  ℕ, ◌+◌, Bool, true, false, ◌&&◌, Option, List, [], ◌∷◌, ◌++◌, ◌==◌, ltb, if◌then◌else◌,
}
use qr_dining.Base.Rows.{find?, update_where, select, exists}
use qr_dining.Domain.{
  OrderStatus, OrderStatus-comparable, order_not_found, invalid_order_transition, unique_violation,
  check_violation,
}
use qr_dining.Store.Model.{World, Order, OrderItem}
use qr_dining.Store.Monad.{Op, ok, err, or_fail}
use qr_dining.Store.Sessions.{next_in_sequence}

abbrev pub is_order_status : OrderStatus → OrderStatus → Bool
is_order_status a b = OrderStatus-comparable.eq a b

unfoldable pub get_order_by_id : ℕ → Op Order
get_order_by_id id w = or_fail (find? (λ o. o.id == id) w.orders) order_not_found w

unfoldable pub list_orders_for_session : ℕ → World → List Order
list_orders_for_session session_id w = select (λ o. o.session_id == session_id) w.orders

unfoldable pub list_order_items : ℕ → World → List OrderItem
list_order_items order_id w = select (λ i. i.order_id == order_id) w.order_items

-- The first order of a day is number 1001.
unfoldable pub next_order_number : ℕ → ℕ → Op ℕ
next_order_number branch_id date w =
    let (seq, rows) = next_in_sequence 1001 branch_id date w.order_sequences in
    (ok seq, record w { order_sequences = rows })

-- The row is given without its id. The index idx_orders_operational_id refuses a second order of one
-- operational id.
unfoldable pub create_order : Order → Op Order
create_order new w =
    let row : Order = record new { id = w.next_id } in
    if exists (λ (o : Order). str_eq o.order_operational_id new.order_operational_id) w.orders
    then (err unique_violation, w)
    else (ok row, record w { orders = row ∷ w.orders; next_id = w.next_id + 1 })

-- The row is given without its id. CHECK (quantity > 0)
unfoldable pub create_order_item : OrderItem → Op OrderItem
create_order_item new w =
    let row : OrderItem = record new { id = w.next_id } in
    if ltb 0 new.quantity
    then (ok row, record w { order_items = w.order_items ++ row ∷ []; next_id = w.next_id + 1 })
    else (err check_violation, w)

abbrev pub move_order : OrderStatus → ℕ → Order → Order
move_order next now o = record o { status = next; updated_at = now }

-- The row as UPDATE … RETURNING gives it.
abbrev pub returned_order : Bool → Option Order → Op Order
returned_order done row w =
    if done then or_fail row invalid_order_transition w else (err invalid_order_transition, w)

abbrev pub is_expected_order : ℕ → ℕ → OrderStatus → Order → Bool
is_expected_order id branch_id current o =
    o.id == id && (o.branch_id == branch_id && is_order_status o.status current)

-- UPDATE orders SET … WHERE id = $1 AND branch_id = $2 AND status = $3 RETURNING *
unfoldable pub update_order_status_expected : ℕ → ℕ → OrderStatus → OrderStatus → Op Order
update_order_status_expected id branch_id current next w =
    let p = is_expected_order id branch_id current in
    let rows = update_where p (move_order next w.now) w.orders in
    returned_order (exists p w.orders) (find? (λ o. o.id == id) rows) (record w { orders = rows })

-- status IN ('pending', 'confirmed', 'preparing', 'ready')
abbrev pub is_on_board : OrderStatus → Bool
is_on_board OrderStatus.served = false
is_on_board OrderStatus.cancelled = false
is_on_board _ = true
