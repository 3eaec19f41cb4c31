-- ===== src/Store/MenuRows.antt =====
-- The queries on menus, restaurants and carts: backend/internal/repository/menu.go and cart.go with
-- the SQL text of backend/internal/db/sqlc. Rows are kept in the order of their insertion.
use Prim.Native.String.{String}
use qr_dining.Base.{
  ℕ, ◌+◌, ⊤, Bool, false, ◌&&◌, ◌||◌, not, Option, none, some, List, [], ◌∷◌, ◌++◌, ◌==◌, ltb,
  if◌then◌else◌, is_some,
}
use qr_dining.Base.Rows.{find?, select}
use qr_dining.Domain.{menu_item_not_found, cart_item_not_found, check_violation}
use qr_dining.Store.Model.{
  World, MenuItem, ItemModifier, ModifierSnapshot, Cart, CartItem, Restaurant, Branch,
}
use qr_dining.Store.Monad.{Op, ok, err, or_fail, modify}

unfoldable pub get_menu_item_by_id : ℕ → Op MenuItem
get_menu_item_by_id id w = or_fail (find? (λ m. m.id == id) w.menu_items) menu_item_not_found w

-- id = ANY($1::bigint[])
abbrev any_of : List ℕ → ℕ → Bool
any_of [] id = false
any_of (i ∷ is) id = i == id || any_of is id

unfoldable pub get_menu_items_by_ids : List ℕ → World → List MenuItem
get_menu_items_by_ids ids w = select (λ m. any_of ids m.id) w.menu_items

unfoldable pub list_modifiers_for_item : ℕ → World → List ItemModifier
list_modifiers_for_item item_id w = select (λ m. m.item_id == item_id) w.item_modifiers

unfoldable pub list_modifiers_for_items : List ℕ → World → List ItemModifier
list_modifiers_for_items ids w = select (λ m. any_of ids m.item_id) w.item_modifiers

-- GetRestaurantByBranchID joins the two tables.
unfoldable pub get_restaurant_by_branch_id : ℕ → World → Option Restaurant
get_restaurant_by_branch_id branch_id w =
    elim (find? (λ (b : Branch). b.id == branch_id) w.branches) [
      | none ↦ none
      | some b ↦ find? (λ r. r.id == b.restaurant_id) w.restaurants
    ]

-- ON CONFLICT (session_id) WHERE participant_id IS NULL
abbrev pub is_shared_cart_of : ℕ → Cart → Bool
is_shared_cart_of session_id c = c.session_id == session_id && not (is_some c.participant_id)

unfoldable pub get_or_create_session_cart : ℕ → Op Cart
get_or_create_session_cart session_id w = elim (find? (is_shared_cart_of session_id) w.carts) [
  | some c ↦ (ok c, w)
  | none ↦
      let row : Cart = record { id = w.next_id; session_id = session_id; participant_id = none } in
      (ok row, record w { carts = w.carts ++ row ∷ []; next_id = w.next_id + 1 })
]

-- CHECK (quantity > 0)
unfoldable pub add_cart_item : ℕ → ℕ → ℕ → List ModifierSnapshot → String → Op CartItem
add_cart_item cart_id menu_item_id quantity modifiers note w =
    let row : CartItem = record {
      id = w.next_id;
      cart_id = cart_id;
      menu_item_id = menu_item_id;
      quantity = quantity;
      selected_modifiers = modifiers;
      note = note;
    } in
    if ltb 0 quantity
    then (ok row, record w { cart_items = w.cart_items ++ row ∷ []; next_id = w.next_id + 1 })
    else (err check_violation, w)

unfoldable pub get_cart_item : ℕ → Op CartItem
get_cart_item id w = or_fail (find? (λ i. i.id == id) w.cart_items) cart_item_not_found w

unfoldable pub remove_cart_item : ℕ → ℕ → Op ⊤
remove_cart_item cart_id id = modify λ w. record w {
  cart_items = select (λ i. not (i.id == id && i.cart_id == cart_id)) w.cart_items;
}

unfoldable pub clear_cart : ℕ → Op ⊤
clear_cart cart_id =
    modify λ w. record w { cart_items = select (λ i. not (i.cart_id == cart_id)) w.cart_items }

-- A row of ListCartItems, which joins the items with the menu.
pub record ListCartItemsRow : Type 0 where
  pub item : CartItem
  pub item_name : String
  pub item_price : ℕ
  pub is_available : Bool

abbrev cart_row : List MenuItem → CartItem → List ListCartItemsRow → List ListCartItemsRow
cart_row menu i rest = elim (find? (λ (m : MenuItem). m.id == i.menu_item_id) menu) [
  | none ↦ rest
  | some m ↦
      record { item = i; item_name = m.name; item_price = m.price; is_available = m.is_available }
      ∷ rest
]

abbrev cart_rows : List MenuItem → List CartItem → List ListCartItemsRow
cart_rows menu [] = []
cart_rows menu (i ∷ is) = cart_row menu i (cart_rows menu is)

unfoldable pub list_cart_items : ℕ → World → List ListCartItemsRow
list_cart_items cart_id w = cart_rows w.menu_items (select (λ i. i.cart_id == cart_id) w.cart_items)
