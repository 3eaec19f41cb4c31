-- ===== src/Safety/Bills.antt =====
-- Orders and bills under any sequence of calls (backend/internal/services/order.go,
-- backend/internal/handlers/billing.go).
use qr_dining.Base.{ℕ, ◌≡◌, refl, sym, ap, ◌∙◌, Option, some, List, [], ◌∷◌}
use qr_dining.Base.Int.{ℤ, pos, ◌+ℤ◌}
use qr_dining.Base.Rows.{All, All-select}
use qr_dining.Domain.{session_not_found}
use qr_dining.Store.{
  World, Config, Session, Order, ok, or_fail, ◌>>=◌, get_session_by_id, get_restaurant_by_branch_id,
  list_orders_for_session,
}
use qr_dining.Billing.{
  BillResponse, bill_session, billing_config, bill_of, bill_orders, add_orders, add_discounts,
  billed_orders, compute_bill_for_session,
}
use qr_dining.Safety.Rules.{
  Books, books, Books-of, IsBilledRight, OrdersAdvance-of, Advances, order_of, session_of,
}
use qr_dining.Safety.Steps.{Reach, Good-reach}

-- Whatever the service is asked to do, an order once placed stays as it was placed: its lines' total,
-- its session, its numbers and its discount never change, and its status only moves along the
-- transition table of the domain. The books must be in order to begin with.
pub order_never_changes :
    {cfg : Config} {w w' : World} (id : ℕ) (o : Order)
    → Reach cfg w w'
    → Books w
    → order_of id w ≡ some o
    → (o' : Order) × (order_of id w' ≡ some o') × Advances o o'
order_never_changes id o r b = OrdersAdvance-of (Good-reach r) b id o

-- The totals that the orders were recorded with.
abbrev pub recorded_total : List Order → ℤ → ℤ
recorded_total [] total = total
recorded_total (o ∷ os) total = recorded_total os (total +ℤ o.total_amount)

add_orders-bill_orders :
    (cfg : Config) (w : World) (os : List Order) (start : ℤ)
    → All (IsBilledRight w) os
    → add_orders (bill_orders cfg w os) start ≡ recorded_total os start
add_orders-bill_orders cfg w [] start h = refl
add_orders-bill_orders cfg w (o ∷ os) start (h, hs) =
    add_orders-bill_orders cfg w os _ hs ∙ ap (λ t. recorded_total os (start +ℤ t)) (sym h.1)

billed_right : (id : ℕ) (w : World) → Books w → All (IsBilledRight w) (billed_orders id w)
unfolding list_orders_for_session
billed_right id w (books right given) = All-select _ _ _ (All-select _ _ w.orders right)

-- Whatever the service has been asked to do, the bill of a session can be computed, changes nothing, and
-- its subtotal, added up line by line, is the sum of the totals that the session's orders were recorded
-- with, the cancelled ones left out. The books must be in order to begin with.
pub bill_adds_up :
    {cfg : Config} {w w' : World} (id : ℕ) (sess : Session)
    → Reach cfg w w'
    → Books w
    → session_of id w' ≡ some sess
    → (bill : BillResponse) × (compute_bill_for_session cfg id w' ≡ (ok bill, w'))
      × (bill.subtotal ≡ recorded_total (billed_orders id w') (pos 0))
unfolding compute_bill_for_session get_session_by_id
bill_adds_up {cfg} {w} {w'} id sess r b found =
    let os = billed_orders id w' in
    let lines = bill_orders cfg w' os in
    let c = billing_config (get_restaurant_by_branch_id sess.branch_id w') in
    (
      bill_of cfg id c lines (add_orders lines (pos 0)) (add_discounts os (pos 0)),
      ap (λ (row : Option Session). (or_fail row session_not_found >>= bill_session cfg id) w')
          found,
      add_orders-bill_orders cfg w' os (pos 0) (billed_right id w' (Books-of (Good-reach r) b)),
    )
