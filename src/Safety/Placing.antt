-- ===== src/Safety/Placing.antt =====
-- A new order keeps the books: it is written with its lines in one transaction, and its total is what
-- the bill will make of them (PlaceOrder of backend/internal/services/order.go).
use qr_dining.Base.{
  ℕ, ◌+◌, ◌≤◌, ◌<◌, ◌≡◌, refl, sym, ap, ◌∙◌, subst, inl, Bool, true, false, List, [], ◌∷◌, ◌++◌,
  ◌==◌, arith, ltb, if◌then◌else◌,
}
use text.Mathlib.Text.{◌==◌ as str_eq}
use mathlib.Core.List.{append-nil, append_assoc}
use qr_dining.Base.Int.{ℤ, pos, ◌+ℤ◌, scale, +ℤ_zero}
use qr_dining.Base.Rows.{
  exists, select, All, select-append, select-none, select-later, All-append, All-imp, All-find?,
  find?-holds,
}
use qr_dining.Domain.{Error, check_violation, unique_violation}
use qr_dining.Store.{
  World, Order, OrderItem, Result, ok, err, list_order_items, create_order_item, create_order,
  ◌>>=◌, pure,
}
use qr_dining.Order.{
  ResolvedItem, PlaceOrderResult, item_total, order_total, order_item_row, create_order_items,
  insert_order,
}
use qr_dining.Billing.{modifier_total, line_total, lines_total}
use qr_dining.Billing.Sums.{add_modifiers-scale, modifier_total_start}
use qr_dining.Safety.Transactions.{KeepsDone, keeps_done}
use qr_dining.Safety.Rules.{Books, books, IsBilledRight, OrdersAdvance, Advances-refl, Good, good}

-- A line costs on the bill what it was counted as when the order was placed.
line_total-order_item_row :
    (id : ℕ) (r : ResolvedItem) → line_total (order_item_row id r) ≡ item_total r
line_total-order_item_row id r =
    let n = r.req.quantity in
    let price = pos r.menu_item.price in
    ap (scale n) (
      sym (modifier_total_start r.modifiers price (pos 0))
      ∙ ap (modifier_total r.modifiers) (+ℤ_zero price))
    ∙ sym (add_modifiers-scale n r.modifiers price)

-- What the insertion of lines leaves alone.
abbrev SameOtherRows : World → World → Type 0
SameOtherRows w w' =
    (w'.sessions ≡ w.sessions)
    × (w'.payments ≡ w.payments)
    × (w'.webhook_events ≡ w.webhook_events)
    × (w'.orders ≡ w.orders)
    × (w.next_id ≤ w'.next_id)

-- The lines of an order are inserted all, or an error is returned.
data Wrote (order_id : ℕ) (rs : List ResolvedItem) (w : World) (r : Result (List OrderItem) × World)
    : Type 0 where
  refused : (e : Error) → r.0 ≡ err e → Wrote order_id rs w r
  wrote :
      (items : List OrderItem)
      → r.0 ≡ ok items
      → SameOtherRows w r.1
      → r.1.order_items ≡ w.order_items ++ items
      → All (λ (i : OrderItem). i.order_id ≡ order_id) items
      → ((start : ℤ) → lines_total items start ≡ order_total rs start)
      → Wrote order_id rs w r

abbrev row_with_id : ℕ → ℕ → ResolvedItem → OrderItem
row_with_id order_id id r = record (order_item_row order_id r) { id = id }

-- Inserting one more line before the others are.
Wrote-cons :
    (order_id id : ℕ) (r : ResolvedItem) (rs : List ResolvedItem) (w w₁ w₂ : World)
    (res : Result (List OrderItem))
    → SameOtherRows w w₁
    → w₁.order_items ≡ w.order_items ++ row_with_id order_id id r ∷ []
    → Wrote order_id rs w₁ (res, w₂)
    → Wrote order_id (r ∷ rs) w (elim res as (λ _. Result (List OrderItem) × World) [
      | ok items ↦ (ok (row_with_id order_id id r ∷ items), w₂)
      | err e ↦ (err e, w₂)
    ])
Wrote-cons order_id id r rs w w₁ w₂ res same put (refused e failed) = rw failed (refused e refl)
Wrote-cons order_id id r rs w w₁ w₂ res same put (wrote items done same' put' mine sums) = rw done (
    wrote (row_with_id order_id id r ∷ items) refl
      (same'.0 ∙ same.0, same'.1 ∙ same.1, same'.2 ∙ same.2, same'.3 ∙ same.3, omega arith)
      (put' ∙ ap (λ t. t ++ items) put ∙ append_assoc w.order_items _ items) (refl, mine)
      (λ start.
        sums (start +ℤ line_total (row_with_id order_id id r))
        ∙ ap (λ t. order_total rs (start +ℤ t)) (line_total-order_item_row order_id r)))

create_order_items-Wrote :
    (order_id : ℕ) (rs : List ResolvedItem) (w : World)
    → Wrote order_id rs w (create_order_items order_id rs w)
unfolding create_order_items create_order_item
create_order_items-Wrote order_id [] w =
    wrote [] refl (refl, refl, refl, refl, omega arith) (sym (append-nil w.order_items)) tt
      (λ start. refl)
create_order_items-Wrote order_id (r ∷ rs) w =
    let row = row_with_id order_id w.next_id r in
    let w₁ : World = record w {
      order_items = w.order_items ++ row ∷ [];
      next_id = w.next_id + 1;
    } in
    let rest = create_order_items order_id rs w₁ in
    let more =
      Wrote-cons order_id w.next_id r rs w w₁ rest.1 rest.0 (refl, refl, refl, refl, omega arith)
        refl (create_order_items-Wrote order_id rs w₁) in
    elim (ltb 0 r.req.quantity)
      as (λ b. Wrote order_id (r ∷ rs) w (
        ((λ _. if b then (ok row, w₁) else (err check_violation, w)) >>= λ item.
        create_order_items order_id rs >>= λ items. pure (item ∷ items))
          w)) [ true ↦ more | false ↦ refused _ refl ]

-- The lines of the new order, and of any older one, among all lines.
new_lines :
    (n : ℕ) (old items : List OrderItem)
    → All (λ (i : OrderItem). i.order_id < n) old
    → All (λ (i : OrderItem). i.order_id ≡ n) items
    → select (λ (i : OrderItem). i.order_id == n) (old ++ items) ≡ items
new_lines n old items before mine =
    let p : OrderItem → Bool = λ i. i.order_id == n in
    select-later p old items (All-imp _ (λ i. p i ≡ false) (λ i h. ground arith) old before)
      (All-imp _ (λ i. p i ≡ true) (λ i h. ground arith) items mine)

old_lines :
    (n k : ℕ) (old items : List OrderItem)
    → k < n
    → All (λ (i : OrderItem). i.order_id ≡ n) items
    → select (λ (i : OrderItem). i.order_id == k) (old ++ items)
      ≡ select (λ (i : OrderItem). i.order_id == k) old
old_lines n k old items less mine =
    let p : OrderItem → Bool = λ i. i.order_id == k in
    let none_ =
      select-none p items (All-imp _ (λ i. p i ≡ false) (λ i h. ground arith) items mine) in
    select-append p old items ∙ ap (λ t. select p old ++ t) none_ ∙ append-nil (select p old)

old_right :
    (w w' : World) (items : List OrderItem) (os : List Order)
    → w'.order_items ≡ w.order_items ++ items
    → w.next_id ≤ w'.next_id
    → All (λ (i : OrderItem). i.order_id ≡ w.next_id) items
    → All (IsBilledRight w) os
    → All (IsBilledRight w') os
unfolding list_order_items
old_right w w' items [] put more mine h = tt
old_right w w' items (o ∷ os) put more mine (h, hs) = (
  (omega arith, rw (put, old_lines w.next_id o.id w.order_items items h.0 mine) h.1),
  old_right w w' items os put more mine hs,
)

-- The books with one order more, whose lines have been written.
Books-place :
    (new : Order) (items : List OrderItem) (w w' : World)
    → let row : Order = record new { id = w.next_id } in
      w'.orders ≡ row ∷ w.orders
      → w'.order_items ≡ w.order_items ++ items
      → w.next_id + 1 ≤ w'.next_id
      → All (λ (i : OrderItem). i.order_id ≡ w.next_id) items
      → new.total_amount ≡ lines_total items (pos 0)
      → Books w
      → Books w' × OrdersAdvance w w'
unfolding list_order_items
Books-place new items w w' placed put more mine total (books right given) = (
  books
      (subst (All (IsBilledRight w')) (sym placed) (
        (omega arith, rw (put, new_lines w.next_id w.order_items items given mine) total),
        old_right w w' items w.orders put (omega arith) mine right,
      ))
      (rw put (
        All-append _ w.order_items items (All-imp _ _ (λ i h. omega arith) w.order_items given)
          (All-imp _ _ (λ i h. omega arith) items mine))),
  λ id o found.
      let less = (All-find? (IsBilledRight w) (λ (r : Order). r.id == id) w.orders right found).0 in
      let mine' = find?-holds (λ (r : Order). r.id == id) w.orders found in
      (o, rw placed (ground arith), Advances-refl o),
)

-- The new order and its lines in the world that they were written in.
Good-placed :
    (new : Order) (rs : List ResolvedItem) (items : List OrderItem) (w w₂ : World)
    → new.total_amount ≡ order_total rs (pos 0)
    → let row : Order = record new { id = w.next_id } in
      let w₁ : World = record w { orders = row ∷ w.orders; next_id = w.next_id + 1 } in
      SameOtherRows w₁ w₂
      → w₂.order_items ≡ w.order_items ++ items
      → All (λ (i : OrderItem). i.order_id ≡ w.next_id) items
      → ((start : ℤ) → lines_total items start ≡ order_total rs start)
      → Good w w₂
Good-placed new rs items w w₂ total (ss, ps, es, os, more) put mine sums =
    good (λ h t. rw ss (h t)) (λ h s. rw ps (h s)) (λ id s h. (s, rw ss h, inl refl))
      (λ e h. rw es h)
      (Books-place new items w w₂ os put (omega arith) mine (total ∙ sym (sums (pos 0))))

pub KeepsDone-insert_order :
    (new : Order) (rs : List ResolvedItem)
    → new.total_amount ≡ order_total rs (pos 0)
    → KeepsDone (insert_order new rs)
unfolding insert_order create_order
KeepsDone-insert_order new rs total = keeps_done λ w a.
    let row : Order = record new { id = w.next_id } in
    let w₁ : World = record w { orders = row ∷ w.orders; next_id = w.next_id + 1 } in
    let end : Result Order × World → Result PlaceOrderResult × World = λ p.
      ((λ _. p) >>= λ order. create_order_items order.id rs >>= λ items.
      pure (record { order = order; order_items = items }))
        w in
    let after_lines : (r : Result (List OrderItem)) (w₂ : World)
        → Wrote w.next_id rs w₁ (r, w₂)
        → let p : Result PlaceOrderResult × World =
            elim r as (λ _. Result PlaceOrderResult × World) [
              | ok items ↦ (ok (record { order = row; order_items = items }), w₂)
              | err e ↦ (err e, w₂)
            ] in
          p.0 ≡ ok a → Good w p.1 =
      λ r w₂ wr. elim wr [
        | refused e failed ↦ rw failed (λ e'. absurd (cc))
        | wrote items done same put mine sums ↦
            rw done (λ _. Good-placed new rs items w w₂ total same put mine sums)
      ] in
    elim (exists (λ (o : Order). str_eq o.order_operational_id new.order_operational_id) w.orders)
      as (λ b.
        let p = end (if b then (err unique_violation, w) else (ok row, w₁)) in
        p.0 ≡ ok a → Good w p.1) [
          | true ↦ λ e. absurd (cc)
          | false ↦
              after_lines (create_order_items w.next_id rs w₁).0
                (create_order_items w.next_id rs w₁).1 (create_order_items-Wrote w.next_id rs w₁)
        ]
