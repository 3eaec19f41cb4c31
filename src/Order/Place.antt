-- ===== src/Order/Place.antt =====
-- PlaceOrder of backend/internal/services/order.go. The host authority is wired (cmd/server/main.go);
-- the metrics are left out. `digest` stands for the SHA-256 of hashOrderRequest.
use Prim.Native.String.{String}
use text.Mathlib.Text.{◌==◌ as str_eq}
use qr_dining.Base.{ℕ, ◌+◌, ⊤, ◌&&◌, not, Option, none, some, List, [], ◌∷◌, ◌==◌, if◌then◌else◌}
use qr_dining.Base.Int.{pos}
use qr_dining.Domain.{
  OrderStatus, active, is_session_cart_frozen, payment_in_progress, session_closed, tenant_mismatch,
  participant_not_in_session, not_session_host, idempotency_conflict, idempotency_in_progress,
}
use qr_dining.Store.{
  Config, Session, Order, OrderItem, Cart, Op, Result, ok, err, attempt, pure, fail, gets, or_fail,
  fail_if, if_found, emit, with_tx, ◌>>=◌, ◌>>◌, publish, log_event, by_participant, order_placed,
  cart_cleared, IdempotencyScope, ◌is◌, get_session_by_id, get_participant_by_id, get_branch_by_id,
  create_idempotency_key, get_idempotency_key, complete_idempotency_key, fail_idempotency_key,
  get_order_by_id, list_order_items, next_order_number, create_order, create_order_item,
  get_or_create_session_cart, clear_cart,
}
use qr_dining.Session.{authorize_host_action}
use qr_dining.Payment.{completed_resource, in_progress, day_seconds}
use qr_dining.Order.Requests.{
  PlaceOrderRequest, PlaceOrderResult, ResolvedItem, HashPayload, hash_order_request,
}
use qr_dining.Order.Lines.{resolve_items, order_total}

abbrev pub order_scope : PlaceOrderRequest → IdempotencyScope
order_scope req = record {
  scope_id = req.session_id;
  actor_type = "participant";
  actor_id = req.placed_by_participant_id;
  key = req.idempotency_key;
}

-- The session, if its guests may order now.
unfoldable pub open_session : PlaceOrderRequest → Op Session
open_session req = do
  sess ← get_session_by_id req.session_id
  fail_if (is_session_cart_frozen sess.status) payment_in_progress
  fail_if (not (sess.status is active)) session_closed
  fail_if (not (req.branch_id == 0) && not (req.branch_id == sess.branch_id)) tenant_mismatch
  pure sess

-- Only the host of the session orders.
unfoldable pub require_ordering_host : Config → PlaceOrderRequest → Op ⊤
require_ordering_host cfg req = do
  participant ← get_participant_by_id req.placed_by_participant_id
  fail_if (not (participant.session_id == req.session_id)) participant_not_in_session
  authorized ← authorize_host_action cfg req.session_id req.placed_by_participant_id
  fail_if (not authorized) not_session_host

-- The order that an earlier request with this key has led to.
abbrev pub replay_placed : PlaceOrderRequest → String → Op (Option PlaceOrderResult)
replay_placed req request_hash = do
  existing ← attempt (get_idempotency_key (order_scope req)) in_progress
  fail_if (not (str_eq existing.request_hash request_hash)) idempotency_conflict
  id ← or_fail (completed_resource existing) idempotency_in_progress
  order ← get_order_by_id id
  items ← gets (list_order_items order.id)
  pure (some (record { order = order; order_items = items }))

-- The order of an earlier request with this key, if there was one.
unfoldable pub replay_order : PlaceOrderRequest → String → Op (Option PlaceOrderResult)
replay_order req request_hash = do
  now ← gets (λ w. w.now)
  inserted ← create_idempotency_key (order_scope req) request_hash (now + day_seconds)
  if inserted then pure none else replay_placed req request_hash

abbrev pub order_item_row : ℕ → ResolvedItem → OrderItem
order_item_row order_id r = record {
  id = 0;
  order_id = order_id;
  menu_item_id = r.menu_item.id;
  quantity = r.req.quantity;
  unit_price = r.menu_item.price;
  selected_modifiers = r.modifiers;
  note = r.req.note;
}

unfoldable pub create_order_items : ℕ → List ResolvedItem → Op (List OrderItem)
create_order_items order_id [] = pure []
create_order_items order_id (r ∷ rs) = do
  item ← create_order_item (order_item_row order_id r)
  rest ← create_order_items order_id rs
  pure (item ∷ rest)

-- The row is given its id by the insertion. Promo discounts are applied at payment initiation.
abbrev pub order_row :
    Config → PlaceOrderRequest → ℕ → List ResolvedItem → String → String → ℕ → ℕ → ℕ → Order
order_row cfg req branch_id resolved prefix code seq local_date now =
    let number = cfg.sprint_number prefix seq in
    record {
      id = 0;
      session_id = req.session_id;
      branch_id = branch_id;
      placed_by_participant_id = some req.placed_by_participant_id;
      status = OrderStatus.pending;
      idempotency_key = req.idempotency_key;
      total_amount = order_total resolved (pos 0);
      created_at = now;
      updated_at = now;
      order_number = number;
      discount_amount = pos 0;
      order_business_date = local_date;
      order_operational_id = cfg.sprint_order code local_date number;
    }

-- The order with its lines.
unfoldable pub insert_order : Order → List ResolvedItem → Op PlaceOrderResult
insert_order new resolved = do
  order ← create_order new
  items ← create_order_items order.id resolved
  pure (record { order = order; order_items = items })

-- The transaction.
unfoldable pub write_order :
    Config → PlaceOrderRequest → ℕ → List ResolvedItem → Op PlaceOrderResult
write_order cfg req branch_id resolved = do
  branch ← get_branch_by_id branch_id
  now ← gets (λ w. w.now)
  let local_date = cfg.local_date branch.timezone now
  seq ← next_order_number branch_id local_date
  result ←
      insert_order
        (order_row cfg req branch_id resolved branch.order_prefix branch.branch_code seq local_date
          now)
        resolved
  complete_idempotency_key (order_scope req) result.order.id
  pure result

-- The shared cart is cleared; no error of this reaches the caller.
abbrev pub clear_after : PlaceOrderRequest → Result Cart → Op ⊤
clear_after req (ok cart) = clear_cart cart.id >> emit (publish req.session_id cart_cleared)
clear_after req (err _) = pure tt

unfoldable pub announce_order : PlaceOrderRequest → ℕ → PlaceOrderResult → Op PlaceOrderResult
announce_order req branch_id result = do
  emit (publish req.session_id (order_placed result.order))
  emit (
      log_event req.session_id branch_id by_participant req.placed_by_participant_id
        (order_placed result.order))
  attempt (get_or_create_session_cart req.session_id) (clear_after req)
  pure result

abbrev pub after_order : PlaceOrderRequest → ℕ → Result PlaceOrderResult → Op PlaceOrderResult
after_order req branch_id (ok result) = announce_order req branch_id result
after_order req branch_id (err e) = fail_idempotency_key (order_scope req) >> fail e

-- The request when no earlier one with its key is found. The key stays reserved where a line cannot be
-- resolved.
unfoldable pub begin_order : Config → PlaceOrderRequest → ℕ → Op PlaceOrderResult
begin_order cfg req branch_id = do
  resolved ← resolve_items branch_id req.items
  attempt (with_tx (write_order cfg req branch_id resolved)) (after_order req branch_id)

unfoldable pub place_order :
    Config → (HashPayload → String) → PlaceOrderRequest → Op PlaceOrderResult
place_order cfg digest req = do
  sess ← open_session req
  require_ordering_host cfg req
  earlier ← replay_order req (hash_order_request digest req)
  if_found earlier pure (begin_order cfg req sess.branch_id)
