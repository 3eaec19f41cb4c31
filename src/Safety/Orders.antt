-- ===== src/Safety/Orders.antt =====
-- The queries on orders, carts and menus keep the rules (backend/internal/repository/order.go, cart.go).
use Prim.Native.String.{String}
use qr_dining.Base.{
  ℕ, ◌≡◌, refl, inl, inr, Bool, true, false, Option, none, some, List, [], ◌∷◌, arith, Bool-cases,
}
use qr_dining.Base.Rows.{exists, update_where, All, find?-update_where}
use qr_dining.Domain.{OrderStatus, validate_order_transition}
use qr_dining.Domain.Transitions.{start, move}
use qr_dining.Store.{
  World, Order, MenuItem, CartItem, ModifierSnapshot, get_order_by_id, list_order_items,
  update_order_status_expected, is_expected_order, move_order, returned_order, next_order_number,
  get_menu_item_by_id, get_or_create_session_cart, add_cart_item, get_cart_item, remove_cart_item,
  clear_cart,
}
use qr_dining.Safety.Rules.{
  Books, books, IsBilledRight, OrdersAdvance, advances, Advances-refl, Good, good, Keeps, keeps,
  kept, Keeps-same, Keeps-or_fail,
}

pub Keeps-get_order_by_id : (id : ℕ) → Keeps (get_order_by_id id)
unfolding get_order_by_id
Keeps-get_order_by_id id = keeps λ w. kept (Keeps-or_fail {A = Order} _ _) w

pub Keeps-get_menu_item_by_id : (id : ℕ) → Keeps (get_menu_item_by_id id)
unfolding get_menu_item_by_id
Keeps-get_menu_item_by_id id = keeps λ w. kept (Keeps-or_fail {A = MenuItem} _ _) w

pub Keeps-get_cart_item : (id : ℕ) → Keeps (get_cart_item id)
unfolding get_cart_item
Keeps-get_cart_item id = keeps λ w. kept (Keeps-or_fail {A = CartItem} _ _) w

pub Keeps-next_order_number : (branch date : ℕ) → Keeps (next_order_number branch date)
unfolding next_order_number
Keeps-next_order_number branch date =
    Keeps-same _ (λ w. refl) (λ w. refl) (λ w. refl) (λ w. (refl, refl, omega arith))

pub Keeps-get_or_create_session_cart : (id : ℕ) → Keeps (get_or_create_session_cart id)
unfolding get_or_create_session_cart
Keeps-get_or_create_session_cart id =
    Keeps-same _ (λ w. ground arith) (λ w. ground arith) (λ w. ground arith)
      (λ w. (ground arith, ground arith, ground arith))

pub Keeps-add_cart_item :
    (cart item quantity : ℕ) (ms : List ModifierSnapshot) (note : String)
    → Keeps (add_cart_item cart item quantity ms note)
unfolding add_cart_item
Keeps-add_cart_item cart item quantity ms note =
    Keeps-same _ (λ w. ground arith) (λ w. ground arith) (λ w. ground arith)
      (λ w. (ground arith, ground arith, ground arith))

pub Keeps-remove_cart_item : (cart id : ℕ) → Keeps (remove_cart_item cart id)
unfolding remove_cart_item
Keeps-remove_cart_item cart id =
    Keeps-same _ (λ w. refl) (λ w. refl) (λ w. refl) (λ w. (refl, refl, omega arith))

pub Keeps-clear_cart : (cart : ℕ) → Keeps (clear_cart cart)
unfolding clear_cart
Keeps-clear_cart cart =
    Keeps-same _ (λ w. refl) (λ w. refl) (λ w. refl) (λ w. (refl, refl, omega arith))

-- A status update leaves what the books read of an order.
moved_right :
    (w w' : World) (p : Order → Bool) (next : OrderStatus) (now : ℕ) (os : List Order)
    → w'.order_items ≡ w.order_items
    → w'.next_id ≡ w.next_id
    → All (IsBilledRight w) os
    → All (IsBilledRight w') (update_where p (move_order next now) os)
unfolding list_order_items
moved_right w w' p next now [] items ids h = tt
moved_right w w' p next now (o ∷ os) items ids (h, hs) =
    (ground arith, moved_right w w' p next now os items ids hs)

Books-move :
    (p : Order → Bool) (next : OrderStatus) (now : ℕ) (w : World)
    → ((o : Order) → p o ≡ true → validate_order_transition o.status next ≡ none)
    → let w' : World = record w { orders = update_where p (move_order next now) w.orders } in
      Books w → Books w' × OrdersAdvance w w'
unfolding list_order_items
Books-move p next now w allowed (books right given) = (
  books
      (moved_right w (record w { orders = update_where p (move_order next now) w.orders }) p next
        now w.orders refl refl right)
      given,
  λ id o h.
      let row =
        find?-update_where (λ (r : Order). r.id) p (move_order next now) id w.orders (λ r. refl) in
      elim (Bool-cases (p o)) [
        | inl met ↦ (
          move_order next now o,
          ground (arith, row),
          advances 1 (move start (allowed o met)) refl,
        )
        | inr other ↦ (o, ground (arith, row), Advances-refl o)
      ],
)

Good-returned :
    (done : Bool) (row : Option Order) (w : World) {u : World}
    → Good u w
    → Good u (returned_order done row w).1
Good-returned true none w h = h
Good-returned true (some p) w h = h
Good-returned false row w h = h

pub Keeps-update_order_status_expected :
    (id branch_id : ℕ) (current next : OrderStatus)
    → validate_order_transition current next ≡ none
    → Keeps (update_order_status_expected id branch_id current next)
unfolding update_order_status_expected
Keeps-update_order_status_expected id branch_id current next allowed = keeps λ w.
    let p : Order → Bool = is_expected_order id branch_id current in
    Good-returned (exists p w.orders) _ _ (
      good (λ h. h) (λ h. h) (λ id s h. (s, h, inl refl)) (λ e h. h)
        (Books-move p next w.now w
          (λ o met. let same : o.status ≡ current = ground arith in rw same allowed)))
