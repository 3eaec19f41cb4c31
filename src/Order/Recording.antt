-- ===== src/Order/Recording.antt =====
-- What an order that was placed leaves in the database (PlaceOrder of
-- backend/internal/services/order.go): the order, its lines and the completed key.
use qr_dining.Base.{
  ℕ, ◌+◌, ◌<◌, ◌≡◌, refl, sym, ap, ◌∙◌, subst, Bool, true, false, some, List, [], ◌∷◌, ◌++◌, ◌==◌,
  arith, ltb, if◌then◌else◌,
}
use text.Mathlib.Text.{◌==◌ as str_eq}
use mathlib.Core.List.{append-nil, append_assoc}
use qr_dining.Base.Rows.{find?, exists, All, All-imp, select, select-later}
use qr_dining.Domain.{check_violation, unique_violation}
use qr_dining.Store.{
  World, Order, OrderItem, MenuItem, ItemModifier, Result, Op, ok, err, pure, ◌>>=◌, create_order,
  create_order_item, Reads, Reads-pure, Reads-gets, Reads-or_fail, Reads-fail_if, Reads-bind,
  done_bind, done_pure,
}
use qr_dining.Order.{
  PlaceOrderResult, ResolvedItem, OrderLine, resolve_items, resolve_lines, resolve_line,
  snapshot_modifiers_from_preloaded, order_item_row, create_order_items, insert_order,
}

-- The look-up of the menu writes nothing.
Reads-snapshot_modifiers :
    (rows : List ItemModifier) (ids : List ℕ) → Reads (snapshot_modifiers_from_preloaded rows ids)
Reads-snapshot_modifiers rows [] = Reads-pure []
Reads-snapshot_modifiers rows (id ∷ ids) =
    let rest = Reads-snapshot_modifiers rows ids in
    search (rest, Reads-pure, Reads-or_fail, Reads-bind) depth 20

Reads-resolve_lines :
    (menu : List MenuItem) (rows : List ItemModifier) (branch_id : ℕ) (lines : List OrderLine)
    → Reads (resolve_lines menu rows branch_id lines)
unfolding resolve_lines resolve_line
Reads-resolve_lines menu rows branch_id [] = Reads-pure []
Reads-resolve_lines menu rows branch_id (line ∷ lines) =
    let rest = Reads-resolve_lines menu rows branch_id lines in
    search (rest, Reads-snapshot_modifiers, Reads-pure, Reads-or_fail, Reads-fail_if, Reads-bind)
      depth 30

pub Reads-resolve_items :
    (branch_id : ℕ) (lines : List OrderLine) → Reads (resolve_items branch_id lines)
unfolding resolve_items
Reads-resolve_items branch_id lines = search (Reads-resolve_lines, Reads-gets, Reads-bind) depth 20

-- What the writes of an order leave alone.
abbrev pub SameGuests : World → World → Type 0
SameGuests w w' = (w'.sessions ≡ w.sessions) × (w'.participants ≡ w.participants) × (w'.now ≡ w.now)

abbrev pub SameKeys : World → World → Type 0
SameKeys w w' = SameGuests w w' × (w'.idempotency_keys ≡ w.idempotency_keys)

abbrev inserted_item : OrderItem → World → OrderItem
inserted_item new w = record new { id = w.next_id }

abbrev with_item : OrderItem → World → World
with_item new w = record w {
  order_items = w.order_items ++ inserted_item new w ∷ [];
  next_id = w.next_id + 1;
}

abbrev item_ended : Bool → OrderItem → World → Result OrderItem × World
item_ended b new w =
    if b then (ok (inserted_item new w), with_item new w) else (err check_violation, w)

done_create_order_item :
    (new item : OrderItem) (w w' : World)
    → create_order_item new w ≡ (ok item, w')
    → (item ≡ inserted_item new w) × (w' ≡ with_item new w)
unfolding create_order_item
done_create_order_item new item w w' h = go (ltb 0 new.quantity) h
  where
    go :
        (b : Bool)
        → item_ended b new w ≡ (ok item, w')
        → (item ≡ inserted_item new w) × (w' ≡ with_item new w)
    go true e = (cc, cc)
    go false e = absurd (cc)

abbrev inserted_order : Order → World → Order
inserted_order new w = record new { id = w.next_id }

abbrev with_order : Order → World → World
with_order new w = record w { orders = inserted_order new w ∷ w.orders; next_id = w.next_id + 1 }

abbrev order_ended : Bool → Order → World → Result Order × World
order_ended b new w =
    if b then (err unique_violation, w) else (ok (inserted_order new w), with_order new w)

done_create_order :
    (new order : Order) (w w' : World)
    → create_order new w ≡ (ok order, w')
    → (order ≡ inserted_order new w) × (w' ≡ with_order new w)
unfolding create_order
done_create_order new order w w' h =
    go (exists (λ (o : Order). str_eq o.order_operational_id new.order_operational_id) w.orders) h
  where
    go :
        (b : Bool)
        → order_ended b new w ≡ (ok order, w')
        → (order ≡ inserted_order new w) × (w' ≡ with_order new w)
    go true e = absurd (cc)
    go false e = (cc, cc)

-- The lines of an order are appended to all lines.
data Appended (order_id : ℕ) (items : List OrderItem) (w w' : World) : Type 0 where
  appended :
      SameKeys w w'
      → w'.orders ≡ w.orders
      → w'.order_items ≡ w.order_items ++ items
      → All (λ (i : OrderItem). (i.order_id == order_id) ≡ true) items
      → Appended order_id items w w'

Appended-cons :
    (order_id : ℕ) (r : ResolvedItem) (rest : List OrderItem) (w w' : World)
    → Appended order_id rest (with_item (order_item_row order_id r) w) w'
    → Appended order_id (inserted_item (order_item_row order_id r) w ∷ rest) w w'
Appended-cons order_id r rest w w' (appended keys orders items ids) =
    appended keys orders (items ∙ append_assoc w.order_items _ rest) (ground arith, ids)

create_order_items-Appended :
    (order_id : ℕ) (rs : List ResolvedItem) (items : List OrderItem) (w w' : World)
    → create_order_items order_id rs w ≡ (ok items, w')
    → Appended order_id items w w'
unfolding create_order_items
create_order_items-Appended order_id [] items w w' h =
    let (none_, same) = done_pure {A = List OrderItem} [] items w w' h in
    subst (Appended order_id items w) (sym same) (
      subst (λ is. Appended order_id is w w) none_
        (appended ((refl, refl, refl), refl) refl (sym (append-nil w.order_items)) tt))
create_order_items-Appended order_id (r ∷ rs) items w w' h =
    let new = order_item_row order_id r in
    let (item, w₁, e₁, h₁) =
      done_bind (create_order_item new)
        (λ item. create_order_items order_id rs >>= λ rest. pure (item ∷ rest)) w w' items h in
    let (mine, put) = done_create_order_item new item w w₁ e₁ in
    let (rest, w₂, e₂, h₂) =
      done_bind (create_order_items order_id rs) (λ rest. pure (item ∷ rest)) w₁ w' items h₁ in
    let (all_, same) = done_pure (item ∷ rest) items w₂ w' h₂ in
    let later =
      subst (λ v. Appended order_id rest v w₂) put
        (create_order_items-Appended order_id rs rest w₁ w₂ e₂) in
    subst (Appended order_id items w) (sym same) (
      subst (λ is. Appended order_id is w w₂) (ap (λ i. i ∷ rest) (sym mine) ∙ all_)
        (Appended-cons order_id r rest w w₂ later))

-- An order and its lines can be read back.
abbrev pub Stored : PlaceOrderResult → World → Type 0
Stored res w =
    (find? (λ (o : Order). o.id == res.order.id) w.orders ≡ some res.order)
    × (select (λ (i : OrderItem). i.order_id == res.order.id) w.order_items ≡ res.order_items)

-- Ids are given out in order: no line belongs to an order still to come.
abbrev pub IdsGiven : World → Type 0
IdsGiven w = All (λ (i : OrderItem). i.order_id < w.next_id) w.order_items

Appended-Stored :
    (new : Order) (items : List OrderItem) (w w' : World)
    → IdsGiven w
    → Appended w.next_id items (with_order new w) w'
    → SameKeys w w' × Stored (record { order = inserted_order new w; order_items = items }) w'
Appended-Stored new items w w' given (appended keys orders items' ids) =
    let before =
      All-imp _ (λ (i : OrderItem). (i.order_id == w.next_id) ≡ false) (λ i h. ground arith)
        w.order_items given in
    (
      keys,
      (
        rw orders (ground arith),
        rw items' (
            select-later (λ (i : OrderItem). i.order_id == w.next_id) w.order_items items before
              ids),
      ),
    )

pub insert_order-Stored :
    (new : Order) (rs : List ResolvedItem) (res : PlaceOrderResult) (w w' : World)
    → IdsGiven w
    → insert_order new rs w ≡ (ok res, w')
    → SameKeys w w' × Stored res w'
unfolding insert_order
insert_order-Stored new rs res w w' given h =
    let finish : Order → List OrderItem → Op PlaceOrderResult =
      λ order items. pure (record { order = order; order_items = items }) in
    let (order, w₁, e₁, h₁) =
      done_bind (create_order new) (λ order. create_order_items order.id rs >>= finish order) w w'
        res h in
    let (mine, put) = done_create_order new order w w₁ e₁ in
    let (items, w₂, e₂, h₂) =
      done_bind (create_order_items order.id rs) (finish order) w₁ w' res h₁ in
    let (shape, same) = done_pure (record { order = order; order_items = items }) res w₂ w' h₂ in
    let lines = create_order_items-Appended order.id rs items w₁ w₂ e₂ in
    let lines' : Appended w.next_id items (with_order new w) w₂ =
      subst (λ v. Appended w.next_id items v w₂) put
        (subst (λ (o : Order). Appended o.id items w₁ w₂) mine lines) in
    let shape' : ◌≡◌ {A = PlaceOrderResult}
        (record { order = inserted_order new w; order_items = items }) res =
      ap (λ o. record { order = o; order_items = items }) (sym mine) ∙ shape in
    subst (λ v. SameKeys w v × Stored res v) (sym same)
      (subst (λ r. SameKeys w w₂ × Stored r w₂) shape'
        (Appended-Stored new items w w₂ given lines'))
