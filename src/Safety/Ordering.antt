-- ===== src/Safety/Ordering.antt =====
-- The services for orders and carts keep the rules (backend/internal/services/order.go and cart.go).
use Prim.Native.String.{String}
use qr_dining.Base.{ℕ, ◌≡◌, refl, List, [], ◌∷◌, Option, none, some}
use qr_dining.Domain.{Error, OrderStatus, validate_order_transition}
use qr_dining.Store.{
  fail, if_found, gets, Op, Config, Order, Cart, MenuItem, ItemModifier, Result, ok, err,
}
use qr_dining.Cart.{
  AddItemRequest, choose_modifiers, snapshot_modifiers, open_cart, get_cart, add_item, remove_item,
}
use qr_dining.Order.{
  order_scope, order_row, PlaceOrderRequest, PlaceOrderResult, HashPayload, ResolvedItem, OrderLine,
  resolve_line, resolve_lines, resolve_items, snapshot_modifiers_from_preloaded, open_session,
  require_ordering_host, replay_order, write_order, clear_after, announce_order, after_order,
  begin_order, place_order, apply_order_status, publish_order_status_event, update_order_status,
}
use qr_dining.Safety.Rules.{
  Keeps-gets, Keeps-then, Keeps-attempt, Keeps, Keeps-bind, Keeps-pure, Keeps-fail, Keeps-emit,
  keeps_rules,
}
use qr_dining.Safety.Sessions.{
  Keeps-get_session_by_id, Keeps-get_branch_by_id, Keeps-get_participant_by_id,
  Keeps-authorize_host_action,
}
use qr_dining.Safety.PaymentRows.{
  Keeps-complete_idempotency_key, Keeps-create_idempotency_key, Keeps-fail_idempotency_key,
  Keeps-get_idempotency_key,
}
use qr_dining.Safety.Charges.{Keeps-in_progress}
use qr_dining.Safety.Orders.{
  Keeps-get_order_by_id, Keeps-get_menu_item_by_id, Keeps-get_cart_item, Keeps-next_order_number,
  Keeps-get_or_create_session_cart, Keeps-add_cart_item, Keeps-remove_cart_item, Keeps-clear_cart,
  Keeps-update_order_status_expected,
}
use qr_dining.Safety.Transactions.{KeepsDone, KeepsDone-bind, KeepsDone-then, Keeps-transaction}
use qr_dining.Safety.Placing.{KeepsDone-insert_order}

ruleset order_rules = (
  keeps_rules, Keeps-get_session_by_id, Keeps-get_branch_by_id, Keeps-get_participant_by_id,
  Keeps-authorize_host_action, Keeps-complete_idempotency_key, Keeps-create_idempotency_key,
  Keeps-fail_idempotency_key, Keeps-get_idempotency_key, Keeps-in_progress, Keeps-get_order_by_id,
  Keeps-get_menu_item_by_id, Keeps-get_cart_item, Keeps-next_order_number,
  Keeps-get_or_create_session_cart, Keeps-add_cart_item, Keeps-remove_cart_item, Keeps-clear_cart,
)

Keeps-choose_modifiers :
    (rows : List ItemModifier) (chosen : List (String × ℕ)) (ids : List ℕ)
    → Keeps (choose_modifiers rows chosen ids)
Keeps-choose_modifiers rows chosen [] = Keeps-pure []
Keeps-choose_modifiers rows chosen (id ∷ ids) =
    search (order_rules, λ (c : List (String × ℕ)). Keeps-choose_modifiers rows c ids) depth 20

Keeps-snapshot_modifiers : (item_id : ℕ) (ids : List ℕ) → Keeps (snapshot_modifiers item_id ids)
unfolding snapshot_modifiers
Keeps-snapshot_modifiers item_id [] = Keeps-pure []
Keeps-snapshot_modifiers item_id (id ∷ ids) = search (order_rules, Keeps-choose_modifiers) depth 20

pub Keeps-get_cart : (session_id : ℕ) → Keeps (get_cart session_id)
unfolding get_cart
Keeps-get_cart session_id = search order_rules depth 20

pub Keeps-add_item : (req : AddItemRequest) → Keeps (add_item req)
unfolding add_item open_cart
Keeps-add_item req = search (order_rules, Keeps-snapshot_modifiers) depth 40 fits 4000

pub Keeps-remove_item :
    (session_id participant_id item_id : ℕ) → Keeps (remove_item session_id participant_id item_id)
unfolding remove_item open_cart
Keeps-remove_item session_id participant_id item_id = search order_rules depth 40 fits 4000

Keeps-preloaded :
    (rows : List ItemModifier) (ids : List ℕ) → Keeps (snapshot_modifiers_from_preloaded rows ids)
Keeps-preloaded rows [] = Keeps-pure []
Keeps-preloaded rows (id ∷ ids) = search (order_rules, Keeps-preloaded rows ids) depth 20

Keeps-resolve_line :
    (menu : List MenuItem) (rows : List ItemModifier) (branch_id : ℕ) (line : OrderLine)
    → Keeps (resolve_line menu rows branch_id line)
unfolding resolve_line
Keeps-resolve_line menu rows branch_id line = search (order_rules, Keeps-preloaded) depth 20

Keeps-resolve_lines :
    (menu : List MenuItem) (rows : List ItemModifier) (branch_id : ℕ) (lines : List OrderLine)
    → Keeps (resolve_lines menu rows branch_id lines)
unfolding resolve_lines
Keeps-resolve_lines menu rows branch_id [] = Keeps-pure []
Keeps-resolve_lines menu rows branch_id (l ∷ ls) =
    search (order_rules, Keeps-resolve_line, Keeps-resolve_lines menu rows branch_id ls) depth 20

Keeps-resolve_items :
    (branch_id : ℕ) (lines : List OrderLine) → Keeps (resolve_items branch_id lines)
unfolding resolve_items
Keeps-resolve_items branch_id lines = search (order_rules, Keeps-resolve_lines) depth 20

Keeps-replay_order : (req : PlaceOrderRequest) (hash : String) → Keeps (replay_order req hash)
unfolding replay_order
Keeps-replay_order req hash = search order_rules depth 60 fits 4000

KeepsDone-write_order :
    (cfg : Config) (req : PlaceOrderRequest) (branch_id : ℕ) (rs : List ResolvedItem)
    → KeepsDone (write_order cfg req branch_id rs)
unfolding write_order
KeepsDone-write_order cfg req branch_id rs =
    KeepsDone-bind _ _ (Keeps-get_branch_by_id branch_id) λ branch.
      KeepsDone-bind (gets {A = ℕ} (λ w. w.now)) _ (Keeps-gets _) λ now.
        KeepsDone-bind _ _ (Keeps-next_order_number branch_id (cfg.local_date branch.timezone now))
          λ seq.
            let new =
              order_row cfg req branch_id rs branch.order_prefix branch.branch_code seq
                (cfg.local_date branch.timezone now) now in
            KeepsDone-then _ _ (KeepsDone-insert_order new rs refl) λ result.
              Keeps-then _ _ (Keeps-complete_idempotency_key (order_scope req) result.order.id)
                (Keeps-pure result)

Keeps-clear_after : (req : PlaceOrderRequest) (r : Result Cart) → Keeps (clear_after req r)
Keeps-clear_after req (ok cart) = search order_rules depth 20
Keeps-clear_after req (err e) = Keeps-pure tt

Keeps-announce_order :
    (req : PlaceOrderRequest) (branch_id : ℕ) (r : PlaceOrderResult)
    → Keeps (announce_order req branch_id r)
unfolding announce_order
Keeps-announce_order req branch_id r = search (order_rules, Keeps-clear_after) depth 40

Keeps-after_order :
    (req : PlaceOrderRequest) (branch_id : ℕ) (r : Result PlaceOrderResult)
    → Keeps (after_order req branch_id r)
Keeps-after_order req branch_id (ok r) = Keeps-announce_order req branch_id r
Keeps-after_order req branch_id (err e) = search order_rules depth 20

Keeps-begin_order :
    (cfg : Config) (req : PlaceOrderRequest) (branch_id : ℕ) → Keeps (begin_order cfg req branch_id)
unfolding begin_order
Keeps-begin_order cfg req branch_id = Keeps-bind _ _ (Keeps-resolve_items branch_id req.items) λ rs.
    Keeps-attempt _ _ (Keeps-transaction _ (KeepsDone-write_order cfg req branch_id rs))
      (Keeps-after_order req branch_id)

pub Keeps-place_order :
    (cfg : Config) (digest : HashPayload → String) (req : PlaceOrderRequest)
    → Keeps (place_order cfg digest req)
unfolding place_order open_session require_ordering_host
Keeps-place_order cfg digest req =
    search (order_rules, Keeps-replay_order, Keeps-begin_order) depth 60 fits 4000

Keeps-publish_order_status_event :
    (session_id : ℕ) (s : OrderStatus) (o : Order)
    → Keeps (publish_order_status_event session_id s o)
unfolding publish_order_status_event
Keeps-publish_order_status_event session_id OrderStatus.pending o = Keeps-pure tt
Keeps-publish_order_status_event session_id s o = Keeps-emit _

Keeps-apply_order_status :
    (order : Order) (order_id branch_id : ℕ) (next : OrderStatus) (staff_id : ℕ)
    → validate_order_transition order.status next ≡ none
    → Keeps (apply_order_status order order_id branch_id next staff_id)
unfolding apply_order_status
Keeps-apply_order_status order order_id branch_id next staff_id allowed =
    search
      (
        order_rules,
        Keeps-publish_order_status_event,
        Keeps-update_order_status_expected order_id branch_id order.status next allowed,
      )
      depth 30

-- What comes after a check that finds no error.
Keeps-checked :
    {A : Type 0} (o : Option Error) (m : Op A) → (o ≡ none → Keeps m) → Keeps (if_found o fail m)
Keeps-checked none m h = h refl
Keeps-checked (some e) m h = Keeps-fail e

pub Keeps-update_order_status :
    (order_id branch_id : ℕ) (next : OrderStatus) (staff_id : ℕ)
    → Keeps (update_order_status order_id branch_id next staff_id)
unfolding update_order_status
Keeps-update_order_status order_id branch_id next staff_id =
    Keeps-bind _ _ (Keeps-get_order_by_id order_id) λ order.
      Keeps-checked (validate_order_transition order.status next)
        (apply_order_status order order_id branch_id next staff_id)
        (Keeps-apply_order_status order order_id branch_id next staff_id)
