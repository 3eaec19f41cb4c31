-- ===== src/Order/Requests.antt =====
-- The requests of backend/internal/services/order.go and what hashOrderRequest hashes of them.
use Prim.Native.String.{String}
use qr_dining.Base.{ℕ, List, [], ◌∷◌, map, ltb, if◌then◌else◌}
use qr_dining.Store.{MenuItem, ModifierSnapshot, Order, OrderItem}

-- services.OrderItem, a line of the request.
pub record OrderLine : Type 0 where
  pub menu_item_id : ℕ
  pub quantity : ℕ
  pub modifier_ids : List ℕ
  pub note : String

pub record PlaceOrderRequest : Type 0 where
  pub session_id : ℕ
  pub branch_id : ℕ
  pub placed_by_participant_id : ℕ
  pub idempotency_key : String
  pub items : List OrderLine

pub record PlaceOrderResult : Type 0 where
  pub order : Order
  pub order_items : List OrderItem

pub record ResolvedItem : Type 0 where
  pub menu_item : MenuItem
  pub modifiers : List ModifierSnapshot
  pub req : OrderLine

abbrev insert_id : ℕ → List ℕ → List ℕ
insert_id a [] = a ∷ []
insert_id a (b ∷ bs) = let rest = b ∷ insert_id a bs in if ltb a b then a ∷ b ∷ bs else rest

-- sort.Slice by `<`
abbrev pub sort_ids : List ℕ → List ℕ
sort_ids [] = []
sort_ids (a ∷ as') = insert_id a (sort_ids as')

pub record HashPayload : Type 0 where
  pub session_id : ℕ
  pub participant_id : ℕ
  pub items : List OrderLine

-- The payload whose JSON is hashed: the modifier ids of each line are sorted first.
abbrev pub hash_payload : PlaceOrderRequest → HashPayload
hash_payload req = record {
  session_id = req.session_id;
  participant_id = req.placed_by_participant_id;
  items = map {A = OrderLine} (λ l. record l { modifier_ids = sort_ids l.modifier_ids }) req.items;
}

-- `digest` stands for the hexadecimal SHA-256 of the payload's JSON.
unfoldable pub hash_order_request : (HashPayload → String) → PlaceOrderRequest → String
hash_order_request digest req = digest (hash_payload req)
