-- ===== src/Billing/Bill.antt =====
-- ComputeBillForSession of backend/internal/handlers/billing.go. Amounts are in cents, so that
-- round2 has nothing to round but what a rate was applied to, which is a field of `Config`. The strings that name a modifier are kept
-- as what they are formatted from.
use Prim.Native.String.{String}
use text.Mathlib.Text.{◌==◌ as str_eq}
use qr_dining.Base.{
  ℕ, Bool, false, ◌&&◌, not, Option, none, some, List, [], ◌∷◌, ◌==◌, ltb, if◌then◌else◌,
}
use qr_dining.Base.Int.{ℤ, pos, ◌+ℤ◌, ◌-ℤ◌, scale}
use qr_dining.Base.Rows.{find?, select}
use qr_dining.Domain.{OrderStatus}
use qr_dining.Store.{
  World, Session, Config, Rate, Restaurant, MenuItem, ModifierSnapshot, Order, OrderItem, Op, pure,
  gets, ◌>>=◌, get_session_by_id, get_restaurant_by_branch_id, list_orders_for_session,
  list_order_items, is_order_status,
}

pub record BillItem : Type 0 where
  pub name : String
  pub quantity : ℕ
  pub unit_price : ℕ
  pub modifiers : List ModifierSnapshot
  pub line_total : ℤ

pub record BillOrder : Type 0 where
  pub order_id : ℕ
  pub order_number : String
  pub placed_at : ℕ
  pub items : List BillItem
  pub order_total : ℤ

pub record BillResponse : Type 0 where
  pub session_id : ℕ
  pub orders : List BillOrder
  pub subtotal : ℤ
  pub tax_rate : Rate
  pub tax_amount : ℤ
  pub service_charge_rate : Rate
  pub service_charge : ℤ
  pub discount_amount : ℤ
  pub tip_amount : ℤ
  pub total : ℤ
  pub currency : String

-- What the bill reads of the settings.
pub record BillingConfig : Type 0 where
  pub tax_rate : Rate
  pub service_charge_rate : Rate
  pub include_tax_in_price : Bool

abbrev rate_or_zero : Option Rate → Rate
rate_or_zero none = record { numerator = 0; denominator = 1 }
rate_or_zero (some r) = r

abbrev or_false : Option Bool → Bool
or_false none = false
or_false (some b) = b

-- A restaurant that is not found leaves the defaults.
abbrev pub billing_config : Option Restaurant → BillingConfig
billing_config none = record {
  tax_rate = rate_or_zero none;
  service_charge_rate = rate_or_zero none;
  include_tax_in_price = false;
}
billing_config (some r) = record {
  tax_rate = rate_or_zero r.tax_rate;
  service_charge_rate = rate_or_zero r.service_charge_rate;
  include_tax_in_price = or_false r.include_tax_in_price;
}

abbrev pub modifier_total : List ModifierSnapshot → ℤ → ℤ
modifier_total [] total = total
modifier_total (m ∷ ms) total = modifier_total ms (total +ℤ m.price_delta)

abbrev pub line_total : OrderItem → ℤ
line_total i = scale i.quantity (pos i.unit_price +ℤ modifier_total i.selected_modifiers (pos 0))

-- `orderTotal += lineTotal`
abbrev pub lines_total : List OrderItem → ℤ → ℤ
lines_total [] total = total
lines_total (i ∷ is) total = lines_total is (total +ℤ line_total i)

-- An item that is gone from the menu, or has no name there, goes by its number.
abbrev item_name : Config → List MenuItem → ℕ → String
item_name cfg menu id = elim (find? (λ (m : MenuItem). m.id == id) menu) [
  | none ↦ cfg.sprint_number "Item #" id
  | some m ↦ if str_eq m.name "" then cfg.sprint_number "Item #" id else m.name
]

abbrev bill_items : Config → List MenuItem → List OrderItem → List BillItem
bill_items cfg menu [] = []
bill_items cfg menu (i ∷ is) =
    record {
      name = item_name cfg menu i.menu_item_id;
      quantity = i.quantity;
      unit_price = i.unit_price;
      modifiers = i.selected_modifiers;
      line_total = line_total i;
    }
    ∷ bill_items cfg menu is

abbrev pub bill_orders : Config → World → List Order → List BillOrder
bill_orders cfg w [] = []
bill_orders cfg w (o ∷ os) =
    record {
      order_id = o.id;
      order_number = o.order_number;
      placed_at = o.created_at;
      items = bill_items cfg w.menu_items (list_order_items o.id w);
      order_total = lines_total (list_order_items o.id w) (pos 0);
    }
    ∷ bill_orders cfg w os

-- `subtotal += orderTotal`
abbrev pub add_orders : List BillOrder → ℤ → ℤ
add_orders [] subtotal = subtotal
add_orders (o ∷ os) subtotal = add_orders os (subtotal +ℤ o.order_total)

abbrev pub add_discounts : List Order → ℤ → ℤ
add_discounts [] total = total
add_discounts (o ∷ os) total = add_discounts os (total +ℤ o.discount_amount)

-- The session's orders, without the cancelled ones.
abbrev pub billed_orders : ℕ → World → List Order
billed_orders session_id w =
    select (λ o. not (is_order_status o.status OrderStatus.cancelled))
      (list_orders_for_session session_id w)

abbrev pub tax_of : Config → BillingConfig → ℤ → ℤ
tax_of cfg c subtotal =
    if not c.include_tax_in_price && ltb 0 c.tax_rate.numerator
    then cfg.at_rate c.tax_rate subtotal
    else pos 0

abbrev pub bill_of : Config → ℕ → BillingConfig → List BillOrder → ℤ → ℤ → BillResponse
bill_of cfg session_id c orders subtotal discount =
    let tax = tax_of cfg c subtotal in
    let service = cfg.at_rate c.service_charge_rate subtotal in
    record {
      session_id = session_id;
      orders = orders;
      subtotal = subtotal;
      tax_rate = c.tax_rate;
      tax_amount = tax;
      service_charge_rate = c.service_charge_rate;
      service_charge = service;
      discount_amount = discount;
      tip_amount = pos 0;
      total = subtotal +ℤ tax +ℤ service -ℤ discount;
      currency = "INR";
    }

-- The bill of a session that is there.
abbrev pub bill_session : Config → ℕ → Session → Op BillResponse
bill_session cfg session_id sess = do
  config ← gets (λ w. billing_config (get_restaurant_by_branch_id sess.branch_id w))
  active ← gets (billed_orders session_id)
  orders ← gets (λ w. bill_orders cfg w active)
  pure (
      bill_of cfg session_id config orders (add_orders orders (pos 0))
        (add_discounts active (pos 0)))

unfoldable pub compute_bill_for_session : Config → ℕ → Op BillResponse
compute_bill_for_session cfg session_id = do
  sess ← get_session_by_id session_id
  bill_session cfg session_id sess
