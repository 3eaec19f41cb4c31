-- ===== src/Order/Lines.antt =====
-- What the lines of an order resolve to, and what they cost (PlaceOrder and
-- snapshotModifiersFromPreloaded of backend/internal/services/order.go). The source computes totals in
-- float64 and rounds them to cents; here they are exact, in cents.
use qr_dining.Base.{ℕ, not, Option, List, [], ◌∷◌, ◌==◌, map}
use qr_dining.Base.Int.{ℤ, pos, ◌+ℤ◌, scale}
use qr_dining.Base.Rows.{find?, select}
use qr_dining.Domain.{menu_item_not_found, menu_item_unavailable, modifier_not_found}
use qr_dining.Store.{
  MenuItem, ItemModifier, ModifierSnapshot, Op, pure, gets, or_fail, fail_if, ◌>>=◌, ◌>>◌,
  get_menu_items_by_ids, list_modifiers_for_items,
}
use qr_dining.Cart.{snapshot_of, modifier_by_id}
use qr_dining.Order.Requests.{OrderLine, ResolvedItem}

abbrev pub snapshot_modifiers_from_preloaded :
    List ItemModifier → List ℕ → Op (List ModifierSnapshot)
snapshot_modifiers_from_preloaded rows [] = pure []
snapshot_modifiers_from_preloaded rows (id ∷ ids) = do
  m ← or_fail (modifier_by_id rows id) modifier_not_found
  rest ← snapshot_modifiers_from_preloaded rows ids
  pure (snapshot_of m ∷ rest)

-- The map from the id of an item, which is the key of its table, to the item.
abbrev pub menu_item_by_id : List MenuItem → ℕ → Option MenuItem
menu_item_by_id menu id = find? (λ m. m.id == id) menu

-- modifiersByItemID[id]
abbrev pub modifiers_by_item_id : List ItemModifier → ℕ → List ItemModifier
modifiers_by_item_id rows id = select (λ m. m.item_id == id) rows

unfoldable pub resolve_line : List MenuItem → List ItemModifier → ℕ → OrderLine → Op ResolvedItem
resolve_line menu rows branch_id line = do
  item ← or_fail (menu_item_by_id menu line.menu_item_id) menu_item_not_found
  fail_if (not item.is_available) menu_item_unavailable
  fail_if (not (item.branch_id == branch_id)) menu_item_not_found
  modifiers ←
      snapshot_modifiers_from_preloaded (modifiers_by_item_id rows line.menu_item_id)
        line.modifier_ids
  pure (record { menu_item = item; modifiers = modifiers; req = line })

unfoldable pub resolve_lines :
    List MenuItem → List ItemModifier → ℕ → List OrderLine → Op (List ResolvedItem)
resolve_lines menu rows branch_id [] = pure []
resolve_lines menu rows branch_id (line ∷ lines) = do
  resolved ← resolve_line menu rows branch_id line
  rest ← resolve_lines menu rows branch_id lines
  pure (resolved ∷ rest)

abbrev menu_item_id_of : OrderLine → ℕ
menu_item_id_of line = line.menu_item_id

-- Both queries are asked for the ids of the lines; that the source leaves duplicates out changes
-- neither answer.
unfoldable pub resolve_items : ℕ → List OrderLine → Op (List ResolvedItem)
resolve_items branch_id lines = do
  menu ← gets (get_menu_items_by_ids (map menu_item_id_of lines))
  rows ← gets (list_modifiers_for_items (map menu_item_id_of lines))
  resolve_lines menu rows branch_id lines

-- `itemTotal += m.PriceDelta * float64(item.Quantity)`
abbrev pub add_modifiers : ℕ → List ModifierSnapshot → ℤ → ℤ
add_modifiers quantity [] total = total
add_modifiers quantity (m ∷ ms) total =
    add_modifiers quantity ms (total +ℤ scale quantity m.price_delta)

abbrev pub item_total : ResolvedItem → ℤ
item_total r =
    add_modifiers r.req.quantity r.modifiers (scale r.req.quantity (pos r.menu_item.price))

-- `totalFloat += itemTotal`
abbrev pub order_total : List ResolvedItem → ℤ → ℤ
order_total [] total = total
order_total (r ∷ rs) total = order_total rs (total +ℤ item_total r)
