-- ===== src/Order/Freezing.antt =====
-- Who may order, and when (backend/internal/services/order.go and cart.go).
use Prim.Native.String.{String}
use qr_dining.Base.{◌∙◌, ℕ, ◌≡◌, ◌≢◌, ⊤, refl, ◌∙◌, true, some, ap, arith}
use qr_dining.Domain.{Error, payment_pending, payment_in_progress}
use qr_dining.Store.{
  if_found, pure, World, Config, Session, Result, Op, ok, err, ◌>>=◌, ◌>>◌, if_found, pure,
  get_session_by_id, get_participant_by_id,
}
use qr_dining.Session.{authorize_host_action}
use qr_dining.Session.Authority.{session_row, unauthorized_changes_nothing}
use qr_dining.Cart.{AddItemRequest, open_cart, add_item, remove_item}
use qr_dining.Order.{
  replay_order, hash_order_request, begin_order, PlaceOrderRequest, PlaceOrderResult, HashPayload,
  open_session, require_ordering_host, place_order,
}

-- While a session waits for its payment nothing can be put into its cart, taken out of it, or ordered:
-- each of the three calls is refused and changes nothing, whoever makes it.
pub payment_freezes_cart_and_orders :
    (cfg : Config) (digest : HashPayload → String) (w : World) (sess : Session)
    (add : AddItemRequest) (place : PlaceOrderRequest) (participant_id item_id : ℕ)
    → session_row sess.id w ≡ some sess
    → sess.status ≡ payment_pending
    → add.session_id ≡ sess.id
    → place.session_id ≡ sess.id
    → (add_item add w ≡ (err payment_in_progress, w))
      × (remove_item sess.id participant_id item_id w ≡ (err payment_in_progress, w))
      × (place_order cfg digest place w ≡ (err payment_in_progress, w))
unfolding add_item remove_item place_order open_cart open_session get_session_by_id
payment_freezes_cart_and_orders cfg digest w sess add place participant_id item_id found paying a
      b =
    (ground arith, ground arith, ground arith)

module _ (cfg : Config) (w : World) (req : PlaceOrderRequest) where
  open_session_reads : (open_session req w).1 ≡ w
  unfolding open_session get_session_by_id
  open_session_reads = ground arith

  refused_host :
      (authorize_host_action cfg req.session_id req.placed_by_participant_id w).0 ≢ ok true
      → (e : Error) × (require_ordering_host cfg req w ≡ (err e, w))
  unfolding require_ordering_host get_participant_by_id
  refused_host refused =
      let same =
        unauthorized_changes_nothing cfg req.session_id req.placed_by_participant_id w refused in
      go (require_ordering_host cfg req w).0 refl (ground (arith, same)) (ground (arith, same))
    where
      go :
          (r : Result ⊤)
          → (require_ordering_host cfg req w).0 ≡ r
          → r ≢ ok tt
          → (require_ordering_host cfg req w).1 ≡ w
          → (e : Error) × (require_ordering_host cfg req w ≡ (err e, w))
      go (ok tt) e never same = absurd (never refl)
      go (err e) e' never same = (e, λ i. (e' i, same i))

  -- Only the host orders: whomever AuthorizeHostAction refuses gets an error, and no order, key or cart
  -- is touched.
  pub refused_guest_orders_nothing :
      (digest : HashPayload → String)
      → (authorize_host_action cfg req.session_id req.placed_by_participant_id w).0 ≢ ok true
      → (e : Error) × (place_order cfg digest req w ≡ (err e, w))
  unfolding place_order
  refused_guest_orders_nothing digest refused = go (open_session req w).0 refl
    where
      rest : Session → Op PlaceOrderResult
      rest sess = do
        require_ordering_host cfg req
        earlier ← replay_order req (hash_order_request digest req)
        if_found earlier pure (begin_order cfg req sess.branch_id)

      go :
          (r : Result Session)
          → (open_session req w).0 ≡ r
          → (e : Error) × (place_order cfg digest req w ≡ (err e, w))
      go (ok sess) e =
          let (e', h) = refused_host refused in
          (
            e',
            ap (λ p. ((λ _. p) >>= rest) w) (λ i. (e i, open_session_reads i))
                ∙ ap
                    (λ p.
                      ((λ _. p)
                          >> (replay_order req (hash_order_request digest req) >>= λ earlier.
                              if_found earlier pure (begin_order cfg req sess.branch_id)))
                        w)
                    h,
          )
      go (err e) e' = (e, ap (λ p. ((λ _. p) >>= rest) w) (λ i. (e' i, open_session_reads i)))
