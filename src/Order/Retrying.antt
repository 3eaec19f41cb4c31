-- ===== src/Order/Retrying.antt =====
-- The idempotency key of an order (PlaceOrder of backend/internal/services/order.go): a request that is
-- sent again finds the order that it has led to.
use Prim.Native.String.{String}
use qr_dining.Base.{
  ℕ, ◌+◌, ◌≡◌, ◌≢◌, if◌then◌else◌, ◌∙◌, Bool, true, false, Option, none, some, arith,
}
use qr_dining.Store.{
  World, Op, ok, attempt, pure, ◌>>=◌, get_idempotency_key, create_idempotency_key, get_order_by_id,
  Reads, reads, Reads-pure, Reads-gets, Reads-or_fail, Reads-fail_if, Reads-bind, Reads-done,
  done_bind,
}
use qr_dining.Payment.{in_progress, day_seconds}
use qr_dining.Order.{PlaceOrderRequest, PlaceOrderResult, order_scope, replay_placed, replay_order}
use qr_dining.Idempotency.{create_idempotency_key-refused}

Reads-existing :
    (req : PlaceOrderRequest) → Reads (attempt (get_idempotency_key (order_scope req)) in_progress)
unfolding get_idempotency_key
Reads-existing req = reads λ w. ground arith

Reads-get_order_by_id : (id : ℕ) → Reads (get_order_by_id id)
unfolding get_order_by_id
Reads-get_order_by_id id = reads λ w. ground arith

Reads-replay_placed : (req : PlaceOrderRequest) (hash : String) → Reads (replay_placed req hash)
Reads-replay_placed req hash =
    search
      (
        Reads-existing, Reads-get_order_by_id, Reads-pure, Reads-gets, Reads-or_fail, Reads-fail_if,
        Reads-bind,
      )
      depth 30

-- A call that never succeeds with nothing.
data Finds {A : Type 0} (m : Op (Option A)) : Type 0 where
  finds : ((w w' : World) → m w ≢ (ok none, w')) → Finds m

Finds-bind :
    {A B : Type 0} (m : Op A) (f : A → Op (Option B)) → ((a : A) → Finds (f a)) → Finds (m >>= f)
Finds-bind m f h = finds λ w w' e.
    let (a, w₁, e₁, e₂) = done_bind m f w w' none e in elim (h a) [ finds never ↦ never w₁ w' e₂ ]

Finds-some : {A : Type 0} (a : A) → Finds (pure (some a))
Finds-some a = finds λ w w' e. absurd (cc)

Finds-replay_placed : (req : PlaceOrderRequest) (hash : String) → Finds (replay_placed req hash)
Finds-replay_placed req hash = search (Finds-bind, Finds-some) depth 30

-- What a look for an earlier request with the key may end with.
pub data Looked (req : PlaceOrderRequest) (hash : String) (w w' : World)
    : Option PlaceOrderResult → Type 0 where
  earlier : (res : PlaceOrderResult) → w' ≡ w → Looked req hash w w' (some res)
  first :
      create_idempotency_key (order_scope req) hash (w.now + day_seconds) w ≡ (ok true, w')
      → Looked req hash w w' none

pub replay_order-Looked :
    (req : PlaceOrderRequest) (hash : String) (w w' : World) (o : Option PlaceOrderResult)
    → replay_order req hash w ≡ (ok o, w')
    → Looked req hash w w' o
unfolding replay_order
replay_order-Looked req hash w w' o h =
    let (inserted, w₁, e, h') =
      done_bind (create_idempotency_key (order_scope req) hash (w.now + day_seconds))
        (λ inserted. if inserted then pure none else replay_placed req hash) w w' o h in
    go inserted w₁ o e h'
  where
    go :
        (inserted : Bool) (w₁ : World) (o : Option PlaceOrderResult)
        → create_idempotency_key (order_scope req) hash (w.now + day_seconds) w ≡ (ok inserted, w₁)
        → (if inserted then pure none else replay_placed req hash) w₁ ≡ (ok o, w')
        → Looked req hash w w' o
    go true w₁ none e h' = first (cc)
    go true w₁ (some res) e h' = absurd (cc)
    go false w₁ none e h' = elim (Finds-replay_placed req hash) [
      | finds never ↦ absurd (never w₁ w' h')
    ]
    go false w₁ (some res) e h' = earlier res (
        Reads-done (Reads-replay_placed req hash) h'
        ∙ create_idempotency_key-refused (order_scope req) w hash (w.now + day_seconds) w₁ e)
