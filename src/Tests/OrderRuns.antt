-- ===== src/Tests/OrderRuns.antt =====
-- Orders, carts, bills and the workers at concrete inputs.
use qr_dining.Base.{ℕ, ◌≡◌, refl, true, false, none, some, [], ◌∷◌, arith, map}
use qr_dining.Base.Int.{pos, negsuc, ◌+ℤ◌, scale}
use qr_dining.Domain.{
  OrderStatus, awaiting_reactivation, payment_pending, payment_in_progress, modifier_conflict,
  validate_order_transition,
}
use qr_dining.Store.{
  World, Session, MenuItem, ItemModifier, Order, OrderItem, IdempotencyKey, KeyStatus, ok, err,
  get_session_by_id, get_participant_by_id, get_branch_by_id, get_menu_items_by_ids,
  list_modifiers_for_items, list_modifiers_for_item, create_idempotency_key,
  complete_idempotency_key, create_order, create_order_item, next_order_number, get_order_by_id,
  list_order_items, update_order_status_expected, get_or_create_session_cart, clear_cart,
}
use qr_dining.Session.{authorize_host_action}
use qr_dining.Cart.{AddItemRequest, snapshot_modifiers, add_item, remove_item}
use qr_dining.Cart.Choices.{single_select_is_single, OnlyChoice}
use qr_dining.Order.{
  PlaceOrderRequest, PlaceOrderResult, place_order, update_order_status, apply_order_status,
  publish_order_status_event, open_session, require_ordering_host, replay_order, hash_order_request,
  begin_order, resolve_items, resolve_lines, resolve_line, write_order, insert_order,
  create_order_items, announce_order,
}
use qr_dining.Order.Idempotence.{order_sent_again}
use qr_dining.Order.Freezing.{payment_freezes_cart_and_orders}
use qr_dining.Billing.{BillResponse, billed_orders, compute_bill_for_session}
use qr_dining.Safety.{Books, books, Advances, order_of}
use qr_dining.Safety.Steps.{done, after, progresses}
use qr_dining.Safety.Bills.{bill_adds_up, order_never_changes, recorded_total}
use qr_dining.Worker.{reap_idempotency_keys, run_reactivation_pipeline}
use qr_dining.Worker.Reaping.{reaper_finishes, stale, kept_keys}
use qr_dining.Worker.Abandoning.{Gone, pipeline_abandons_expired}
use qr_dining.Worker.Pipeline.{pipeline_leaves_paying_sessions, session_row}
use qr_dining.Tests.Fixtures.{config, branch, dinner, world}
use qr_dining.Tests.PaymentRuns.{paying}

abbrev dosa : MenuItem
dosa = record { id = 30; branch_id = 10; name = "Dosa"; price = 12000; is_available = true }

abbrev sweet : ItemModifier
sweet = record {
  id = 41;
  item_id = 30;
  name = "Sweet";
  price_delta = pos 1500;
  modifier_group = "taste";
  single_select = true;
}

abbrev salty : ItemModifier
salty = record sweet { id = 42; name = "Salty"; price_delta = negsuc 499; single_select = false }

abbrev kitchen : World
kitchen = record world { menu_items = dosa ∷ []; item_modifiers = sweet ∷ salty ∷ [] }

abbrev two_dosas : PlaceOrderRequest
two_dosas = record {
  session_id = 100;
  branch_id = 0;
  placed_by_participant_id = 201;
  idempotency_key = "k1";
  items = record { menu_item_id = 30; quantity = 2; modifier_ids = 41 ∷ 42 ∷ []; note = "" } ∷ [];
}

-- The lines of an order are priced with their modifiers, and the cart's rule on groups is not applied.
places_two_dosas :
    map {A = Order} (λ o. o.total_amount) (place_order config (λ p. "h") two_dosas kitchen).1.orders
    ≡ pos 26000 ∷ []
unfolding place_order open_session require_ordering_host get_session_by_id get_participant_by_id
    authorize_host_action replay_order hash_order_request create_idempotency_key begin_order
    resolve_items resolve_lines resolve_line get_menu_items_by_ids list_modifiers_for_items
    write_order get_branch_by_id next_order_number insert_order create_order create_order_items
    create_order_item complete_idempotency_key announce_order get_or_create_session_cart clear_cart
    ◌+ℤ◌ scale
places_two_dosas = refl

cart_refuses_both : (snapshot_modifiers 30 (41 ∷ 42 ∷ []) kitchen).0 ≡ err modifier_conflict
unfolding snapshot_modifiers list_modifiers_for_item
cart_refuses_both = refl

abbrev plate : OrderItem
plate = record {
  id = 401;
  order_id = 400;
  menu_item_id = 30;
  quantity = 2;
  unit_price = 12000;
  selected_modifiers = record { id = 41; name = "Sweet"; price_delta = pos 1500 } ∷ [];
  note = "";
}

abbrev ordered : Order
ordered = record {
  id = 400;
  session_id = 100;
  branch_id = 10;
  placed_by_participant_id = some 201;
  status = OrderStatus.pending;
  idempotency_key = "k0";
  total_amount = pos 27000;
  created_at = 900;
  updated_at = 900;
  order_number = "A1001";
  discount_amount = pos 0;
  order_business_date = 0;
  order_operational_id = "MG-0-A1001";
}

abbrev served : World
served = record kitchen {
  restaurants =
      record {
        id = 1;
        tax_rate = some (record { numerator = 1; denominator = 20 });
        service_charge_rate = none;
        include_tax_in_price = none;
      }
      ∷ [];
  orders = ordered ∷ [];
  order_items = plate ∷ [];
}

in_order : Books served
unfolding list_order_items ◌+ℤ◌ scale
in_order = books ((omega arith, refl), tt) (omega arith, tt)

abbrev confirmed_world : World
confirmed_world = (update_order_status 400 10 OrderStatus.confirmed 7 served).1

bill_adds_up_example :
    (bill : BillResponse) × (compute_bill_for_session config 100 confirmed_world
      ≡ (ok bill, confirmed_world))
    × (bill.subtotal ≡ recorded_total (billed_orders 100 confirmed_world) (pos 0))
unfolding update_order_status apply_order_status publish_order_status_event get_order_by_id
    update_order_status_expected validate_order_transition
bill_adds_up_example =
    bill_adds_up {cfg = config} {w = served} 100 dinner
      (after (progresses 400 10 OrderStatus.confirmed 7 served) done) in_order refl

order_never_changes_example :
    (o' : Order) × (order_of 400 confirmed_world ≡ some o') × Advances ordered o'
order_never_changes_example =
    order_never_changes {cfg = config} {w = served} 400 ordered
      (after (progresses 400 10 OrderStatus.confirmed 7 served) done) in_order refl

abbrev frozen : Session
frozen = record dinner { status = payment_pending }

abbrev one_dosa : AddItemRequest
one_dosa = record {
  session_id = 100;
  participant_id = 202;
  menu_item_id = 30;
  quantity = 1;
  modifier_ids = [];
  note = "";
}

payment_freezes_cart_and_orders_example :
    (add_item one_dosa paying ≡ (err payment_in_progress, paying))
    × (remove_item 100 202 50 paying ≡ (err payment_in_progress, paying))
    × (place_order config (λ p. "h") two_dosas paying ≡ (err payment_in_progress, paying))
payment_freezes_cart_and_orders_example =
    payment_freezes_cart_and_orders config (λ p. "h") paying frozen one_dosa two_dosas 202 50 refl
      refl refl refl

single_select_is_single_example :
    (x : ℕ) × OnlyChoice
      (list_modifiers_for_item 30 kitchen)
      "taste"
      x
      (record { id = 41; name = "Sweet"; price_delta = pos 1500 } ∷ [])
unfolding snapshot_modifiers list_modifiers_for_item
single_select_is_single_example =
    single_select_is_single 30 (41 ∷ []) kitchen
      (record { id = 41; name = "Sweet"; price_delta = pos 1500 } ∷ []) "taste" refl refl

abbrev old_key : IdempotencyKey
old_key = record {
  scope = record { scope_id = 100; actor_type = "participant"; actor_id = 201; key = "k" };
  request_hash = "h";
  expires_at = 100;
  status = KeyStatus.completed;
  response_resource_id = none;
}

abbrev with_keys : World
with_keys = record world { idempotency_keys = old_key ∷ record old_key { expires_at = 990 } ∷ [] }

reaper_finishes_example :
    let (r, w') = reap_idempotency_keys 1 500 with_keys in
    (r ≡ ok (stale 500 with_keys.idempotency_keys))
    × (stale 500 w'.idempotency_keys ≡ 0)
    × (kept_keys 500 w'.idempotency_keys ≡ kept_keys 500 with_keys.idempotency_keys)
reaper_finishes_example = reaper_finishes 500 1 with_keys (omega arith)

pipeline_leaves_paying_sessions_example :
    session_row 100 (run_reactivation_pipeline 60 300 900 paying).1 ≡ session_row 100 paying
pipeline_leaves_paying_sessions_example = pipeline_leaves_paying_sessions 100 60 300 900 paying refl

abbrev taken_order : Order
taken_order = record {
  id = 1000;
  session_id = 100;
  branch_id = 10;
  placed_by_participant_id = some 201;
  status = OrderStatus.pending;
  idempotency_key = "k1";
  total_amount = pos 26000;
  created_at = 1000;
  updated_at = 1000;
  order_number = "A";
  discount_amount = pos 0;
  order_business_date = 0;
  order_operational_id = "A";
}

abbrev taken : PlaceOrderResult
taken = record {
  order = taken_order;
  order_items =
      record {
        id = 1001;
        order_id = 1000;
        menu_item_id = 30;
        quantity = 2;
        unit_price = 12000;
        selected_modifiers =
            record { id = 41; name = "Sweet"; price_delta = pos 1500 }
            ∷ record { id = 42; name = "Salty"; price_delta = negsuc 499 }
            ∷ [];
        note = "";
      }
      ∷ [];
}

abbrev ordered_world : World
ordered_world = (place_order config (λ p. "h") two_dosas kitchen).1

taken_at_once : place_order config (λ p. "h") two_dosas kitchen ≡ (ok taken, ordered_world)
unfolding place_order open_session require_ordering_host get_session_by_id get_participant_by_id
    authorize_host_action replay_order hash_order_request create_idempotency_key begin_order
    resolve_items resolve_lines resolve_line get_menu_items_by_ids list_modifiers_for_items
    write_order get_branch_by_id next_order_number insert_order create_order create_order_items
    create_order_item complete_idempotency_key announce_order get_or_create_session_cart clear_cart
    ◌+ℤ◌ scale
taken_at_once = refl

order_sent_again_example :
    place_order config (λ p. "h") two_dosas ordered_world ≡ (ok taken, ordered_world)
order_sent_again_example =
    order_sent_again config (λ p. "h") two_dosas taken kitchen ordered_world (omega arith) tt
      taken_at_once

-- Everybody has left, and the window has passed.
abbrev deserted : Session
deserted = record dinner { status = awaiting_reactivation; awaiting_reactivation_at = some 50 }

abbrev deserted_world : World
deserted_world = record world { sessions = deserted ∷ [] }

pipeline_abandons_expired_example : Gone 100 (run_reactivation_pipeline 60 300 900 deserted_world).1
pipeline_abandons_expired_example =
    pipeline_abandons_expired 100 deserted refl 60 300 900 50 deserted_world branch refl refl
      (omega arith) refl refl
