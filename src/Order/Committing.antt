-- ===== src/Order/Committing.antt =====
-- What a first request leaves in the database, its cart cleared and its events sent (PlaceOrder of
-- backend/internal/services/order.go).
use qr_dining.Base.{
  ℕ, ◌≡◌, refl, sym, ap, ◌∙◌, subst, ⊤, List, [], ◌∷◌, ◌==◌, Option-cases, inl, inr,
}
use qr_dining.Base.Rows.{find?, select}
use qr_dining.Store.{
  World, Config, Cart, IdempotencyKey, Result, Op, ok, err, pure, attempt, with_tx, publish,
  log_event, by_participant, order_placed, same_scope, get_or_create_session_cart, clear_cart,
  fail_idempotency_key, done_bind, done_pure, Reads-done, is_shared_cart_of,
}
use qr_dining.Idempotency.{key_rows}
use qr_dining.Order.{
  PlaceOrderRequest, PlaceOrderResult, ResolvedItem, order_scope, clear_after, announce_order,
  after_order, write_order, resolve_items, begin_order,
}
use qr_dining.Order.Recording.{SameKeys, IdsGiven, Reads-resolve_items}
use qr_dining.Order.Keeping.{Recorded, recorded, write_order-Recorded}

-- What follows the transaction touches the cart only.
abbrev SameOrders : World → World → Type 0
SameOrders w w' = SameKeys w w' × (w'.orders ≡ w.orders) × (w'.order_items ≡ w.order_items)

opened_cart :
    (session_id : ℕ) (w : World) → SameOrders w (get_or_create_session_cart session_id w).1
unfolding get_or_create_session_cart
opened_cart session_id w = elim (Option-cases (find? (is_shared_cart_of session_id) w.carts)) [
  | inl none_ ↦ rw (none_, get_or_create_session_cart) (((refl, refl, refl), refl), refl, refl)
  | inr (c, e) ↦ rw (e, get_or_create_session_cart) (((refl, refl, refl), refl), refl, refl)
]

cleared :
    (req : PlaceOrderRequest) (r : Result Cart) (w : World) → SameOrders w (clear_after req r w).1
unfolding clear_cart
cleared req (ok cart) w = (((refl, refl, refl), refl), refl, refl)
cleared req (err e) w = (((refl, refl, refl), refl), refl, refl)

SameOrders-trans : (u v w : World) → SameOrders u v → SameOrders v w → SameOrders u w
SameOrders-trans u v w (((a, b, c), d), e, f) (((a', b', c'), d'), e', f') =
    (((a' ∙ a, b' ∙ b, c' ∙ c), d' ∙ d), e' ∙ e, f' ∙ f)

done_announce_order :
    (req : PlaceOrderRequest) (branch_id : ℕ) (result res : PlaceOrderResult) (w w' : World)
    → announce_order req branch_id result w ≡ (ok res, w')
    → (result ≡ res) × SameOrders w w'
unfolding announce_order
done_announce_order req branch_id result res w w' h =
    let told : World = record w {
      effects =
          log_event req.session_id branch_id by_participant req.placed_by_participant_id
            (order_placed result.order)
          ∷ publish req.session_id (order_placed result.order)
          ∷ w.effects;
    } in
    let open_cart = get_or_create_session_cart req.session_id in
    let (_, w₁, e₁, h₁) =
      done_bind (attempt open_cart (clear_after req)) (λ _. pure result) told w' res h in
    let (mine, same) = done_pure result res w₁ w' h₁ in
    let tried = open_cart told in
    let kept =
      SameOrders-trans told tried.1 (clear_after req tried.0 tried.1).1
        (opened_cart req.session_id told) (cleared req tried.0 tried.1) in
    (mine, subst (SameOrders w) (ap (λ (r : Result ⊤ × World). r.1) e₁ ∙ sym same) kept)

-- The transaction committed, and what was sent out followed.
done_after_order :
    (req : PlaceOrderRequest) (branch_id : ℕ) (m : Op PlaceOrderResult) (res : PlaceOrderResult)
    (w w' : World)
    → attempt (with_tx m) (after_order req branch_id) w ≡ (ok res, w')
    → (w₁ : World) × (m w ≡ (ok res, w₁)) × SameOrders w₁ w'
unfolding fail_idempotency_key
done_after_order req branch_id m res w w' h = go (m w) h
  where
    go :
        (r : Result PlaceOrderResult × World)
        → attempt (with_tx (λ _. r)) (after_order req branch_id) w ≡ (ok res, w')
        → (w₁ : World) × (r ≡ (ok res, w₁)) × SameOrders w₁ w'
    go (ok result, w₁) e =
        let (mine, same) = done_announce_order req branch_id result res w₁ w' e in
        (w₁, ap (λ (p : PlaceOrderResult). (ok p, w₁)) mine, same)
    go (err x, w₁) e = absurd (cc)

pub begin_order-Recorded :
    (cfg : Config) (req : PlaceOrderRequest) (k : IdempotencyKey) (branch_id : ℕ)
    (res : PlaceOrderResult) (w w' : World)
    → IdsGiven w
    → key_rows (order_scope req) w ≡ k ∷ []
    → begin_order cfg req branch_id w ≡ (ok res, w')
    → Recorded req k res w w'
unfolding begin_order
begin_order-Recorded cfg req k branch_id res w w' given only h =
    let write : List ResolvedItem → Op PlaceOrderResult = write_order cfg req branch_id in
    let (rs, w₁, e₁, h₁) =
      done_bind (resolve_items branch_id req.items)
        (λ rs. attempt (with_tx (write rs)) (after_order req branch_id)) w w' res h in
    let same₁ = Reads-done (Reads-resolve_items branch_id req.items) e₁ in
    let (w₂, e₂, (keys, orders, items)) = done_after_order req branch_id (write rs) res w₁ w' h₁ in
    let e₂' = subst (λ v. write rs v ≡ (ok res, w₂)) same₁ e₂ in
    elim (write_order-Recorded cfg req k branch_id rs res w w₂ given only e₂') [
      | recorded (s, p, n) key (order, lines) ↦
          recorded (keys.0.0 ∙ s, keys.0.1 ∙ p, keys.0.2 ∙ n)
            (ap (select (λ (r : IdempotencyKey). same_scope r.scope (order_scope req))) keys.1
              ∙ key)
            (
              ap (find? (λ o. o.id == res.order.id)) orders ∙ order,
              ap (select (λ i. i.order_id == res.order.id)) items ∙ lines,
            )
    ]
