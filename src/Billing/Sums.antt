-- ===== src/Billing/Sums.antt =====
-- The sums of an order and of a bill, which add the same amounts in another order.
use qr_dining.Base.{ℕ, ◌≡◌, refl, sym, ◌∙◌, ap, List, [], ◌∷◌, ◌++◌}
use qr_dining.Base.Int.{ℤ, ◌+ℤ◌, scale, scale-add, +ℤ_assoc}
use qr_dining.Store.{ModifierSnapshot, OrderItem}
use qr_dining.Billing.{modifier_total, line_total, lines_total}
use qr_dining.Order.{add_modifiers}

-- Multiplying each modifier or their sum.
pub add_modifiers-scale :
    (n : ℕ) (ms : List ModifierSnapshot) (a : ℤ)
    → add_modifiers n ms (scale n a) ≡ scale n (modifier_total ms a)
add_modifiers-scale n [] a = refl
add_modifiers-scale n (m ∷ ms) a =
    ap (add_modifiers n ms) (sym (scale-add n a m.price_delta))
    ∙ add_modifiers-scale n ms (a +ℤ m.price_delta)

-- What was added before can be added after.
pub modifier_total_start :
    (ms : List ModifierSnapshot) (a b : ℤ) → modifier_total ms (a +ℤ b) ≡ a +ℤ modifier_total ms b
modifier_total_start [] a b = refl
modifier_total_start (m ∷ ms) a b =
    ap (modifier_total ms) (+ℤ_assoc a b m.price_delta)
    ∙ modifier_total_start ms a (b +ℤ m.price_delta)

pub lines_total_start :
    (is : List OrderItem) (a b : ℤ) → lines_total is (a +ℤ b) ≡ a +ℤ lines_total is b
lines_total_start [] a b = refl
lines_total_start (i ∷ is) a b =
    ap (lines_total is) (+ℤ_assoc a b (line_total i)) ∙ lines_total_start is a (b +ℤ line_total i)

pub lines_total-append :
    (is js : List OrderItem) (a : ℤ) → lines_total (is ++ js) a ≡ lines_total js (lines_total is a)
lines_total-append [] js a = refl
lines_total-append (i ∷ is) js a = lines_total-append is js (a +ℤ line_total i)
