-- ===== src/Order/Idempotence.antt =====
-- An order that is sent again (PlaceOrder of backend/internal/services/order.go).
use Prim.Native.String.{String}
use qr_dining.Base.{
  ℕ, ◌+◌, ◌≡◌, ◌≤◌, ◌<◌, refl, sym, ap, ◌∙◌, subst, true, false, not, if◌then◌else◌, Option, none,
  some, List, arith, ltb,
}
use qr_dining.Base.Rows.{All, select, length}
use qr_dining.Store.{
  World, Config, Order, OrderItem, gets, or_fail, fail_if, go_on, get_order_by_id, list_order_items,
  get_idempotency_key, Session, IdempotencyKey, Op, ok, pure, attempt, if_found, ◌>>=◌, ◌>>◌,
  same_scope, create_idempotency_key, done_bind, done_pure,
}
use text.Mathlib.Text.{◌==◌ as str_eq}
use text.Mathlib.TextEquality.{eq_iff}
use qr_dining.Domain.{idempotency_conflict, idempotency_in_progress, order_not_found}
use qr_dining.Payment.{day_seconds, completed_resource, in_progress}
use qr_dining.Idempotency.{
  key_rows, reserved_key, completed_key, get_idempotency_key-live, create_idempotency_key-again,
  create_idempotency_key-reserved,
}
use qr_dining.Order.{
  HashPayload, PlaceOrderRequest, PlaceOrderResult, order_scope, hash_order_request, replay_placed,
  begin_order, open_session, require_ordering_host, replay_order, place_order,
}
use qr_dining.Order.Admission.{MayOrder, MayOrder-passes, open_session-Opened, admitted-MayOrder}
use qr_dining.Order.Committing.{begin_order-Recorded}
use qr_dining.Order.Retrying.{Looked, earlier, first, replay_order-Looked}
use qr_dining.Order.Recording.{SameGuests, IdsGiven}
use qr_dining.Order.Keeping.{Recorded, recorded}

-- While its key lives, an order that was recorded is found again.
replay_placed-Recorded :
    (req : PlaceOrderRequest) (hash : String) (expires_at : ℕ) (res : PlaceOrderResult)
    (w w' : World)
    → Recorded req (reserved_key (order_scope req) hash expires_at) res w w'
    → ltb w'.now expires_at ≡ true
    → replay_placed req hash w' ≡ (ok (some res), w')
unfolding get_order_by_id list_order_items
replay_placed-Recorded req hash expires_at res w w' (recorded guests key (order, lines)) live =
    let k = completed_key (reserved_key (order_scope req) hash expires_at) res.order.id in
    let answer : Order → List OrderItem → Op (Option PlaceOrderResult) =
      λ order items. pure (some (record { order = order; order_items = items })) in
    let read : ℕ → Op (Option PlaceOrderResult) =
      λ id. get_order_by_id id >>= λ order. gets (list_order_items order.id) >>= answer order in
    let found : IdempotencyKey → Op (Option PlaceOrderResult) =
      λ existing. or_fail (completed_resource existing) idempotency_in_progress >>= read in
    go_on (attempt (get_idempotency_key (order_scope req)) in_progress)
      (λ existing.
        fail_if (not (str_eq existing.request_hash hash)) idempotency_conflict >> found existing)
      w' w' k (ok (some res), w')
      (ap (λ r. attempt (λ _. r) in_progress w')
        (get_idempotency_key-live (order_scope req) w' k key live))
      (go_on (fail_if (not (str_eq hash hash)) idempotency_conflict) (λ _. found k) w' w' tt
        (ok (some res), w')
        (ap (λ b. fail_if (not b) idempotency_conflict w') ((eq_iff hash hash).1 refl))
        (go_on (get_order_by_id res.order.id)
          (λ order. gets (list_order_items order.id) >>= answer order) w' w' res.order
          (ok (some res), w') (ap (λ o. or_fail o order_not_found w') order)
          (ap (λ items. answer res.order items w') lines)))

replay_order-Recorded :
    (req : PlaceOrderRequest) (hash : String) (expires_at : ℕ) (res : PlaceOrderResult)
    (w w' : World)
    → Recorded req (reserved_key (order_scope req) hash expires_at) res w w'
    → ltb w'.now expires_at ≡ true
    → replay_order req hash w' ≡ (ok (some res), w')
unfolding replay_order
replay_order-Recorded req hash expires_at res w w' (recorded guests key stored) live =
    let k = completed_key (reserved_key (order_scope req) hash expires_at) res.order.id in
    go_on (create_idempotency_key (order_scope req) hash (w'.now + day_seconds))
      (λ inserted. if inserted then pure none else replay_placed req hash) w' w' false
      (ok (some res), w')
      (create_idempotency_key-again (order_scope req) w' k key live hash (w'.now + day_seconds))
      (replay_placed-Recorded req hash expires_at res w w' (recorded guests key stored) live)

IdsGiven-same :
    (w w' : World)
    → w'.order_items ≡ w.order_items
    → w'.next_id ≡ w.next_id
    → IdsGiven w
    → IdsGiven w'
IdsGiven-same w w' items next given =
    subst (λ n. All (λ (i : OrderItem). i.order_id < n) w'.order_items) (sym next)
      (subst (All λ (i : OrderItem). i.order_id < w.next_id) (sym items) given)

module _ (cfg : Config) (digest : HashPayload → String) (req : PlaceOrderRequest) where
  abbrev after_look : Session → Option PlaceOrderResult → Op PlaceOrderResult
  after_look sess earlier_ = if_found earlier_ pure (begin_order cfg req sess.branch_id)

  abbrev after_host : Session → Op PlaceOrderResult
  after_host sess = replay_order req (hash_order_request digest req) >>= after_look sess

  -- A request that passes the guards and finds its order ends with it.
  answered :
      (res : PlaceOrderResult) (w : World)
      → MayOrder req w.sessions w.participants
      → replay_order req (hash_order_request digest req) w ≡ (ok (some res), w)
      → place_order cfg digest req w ≡ (ok res, w)
  unfolding place_order
  answered res w may found =
      let ((sess, opened), host) = MayOrder-passes cfg req w may in
      go_on (open_session req) (λ sess. require_ordering_host cfg req >> after_host sess) w w sess
        (ok res, w) opened
        (go_on (require_ordering_host cfg req) (λ _. after_host sess) w w tt (ok res, w) host
          (go_on (replay_order req (hash_order_request digest req)) (after_look sess) w w (some res)
            (ok res, w) found refl))

  -- What an order that was recorded is answered when it is sent again.
  sent_again :
      (res : PlaceOrderResult) (w w₁ w' : World)
      → MayOrder req w.sessions w.participants
      → SameGuests w w₁
      → Recorded req
          (reserved_key (order_scope req) (hash_order_request digest req) (w.now + day_seconds))
          res
          w₁
          w'
      → place_order cfg digest req w' ≡ (ok res, w')
  sent_again res w w₁ w' may (s₁, p₁, n₁) (recorded (s, p, n) key stored) =
      let expires_at = w.now + day_seconds in
      let soon : ltb w.now expires_at ≡ true = ground arith in
      let live = subst (λ t. ltb t expires_at ≡ true) (sym (n ∙ n₁)) soon in
      let may₁ = subst (λ ps. MayOrder req w.sessions ps) (sym (p ∙ p₁)) may in
      answered res w' (subst (λ ss. MayOrder req ss w'.participants) (sym (s ∙ s₁)) may₁) (
        replay_order-Recorded req (hash_order_request digest req) expires_at res w₁ w'
          (recorded (s, p, n) key stored) live)

  -- The request once its guards have been passed.
  found_again :
      (sess : Session) (res : PlaceOrderResult) (o : Option PlaceOrderResult) (w w₁ w' : World)
      → length (key_rows (order_scope req) w) ≤ 1
      → IdsGiven w
      → MayOrder req w.sessions w.participants
      → replay_order req (hash_order_request digest req) w ≡ (ok o, w₁)
      → Looked req (hash_order_request digest req) w w₁ o
      → after_look sess o w₁ ≡ (ok res, w')
      → place_order cfg digest req w' ≡ (ok res, w')
  found_again sess res (some _) w w₁ w' one given may look (earlier res' same) h =
      let (mine, same') = done_pure res' res w₁ w' h in
      subst (λ v. place_order cfg digest req v ≡ (ok res, v)) (sym (same' ∙ same))
        (answered res w may (look ∙ (λ i. (ok (some (mine i)), same i))))
  found_again sess res none w w₁ w' one given may look (first e) h =
      let hash = hash_order_request digest req in
      let expires_at = w.now + day_seconds in
      let (shape, key) =
        create_idempotency_key-reserved (order_scope req) w hash expires_at w₁ one e in
      sent_again res w w₁ w' may
        (ap (λ v. v.sessions) shape, ap (λ v. v.participants) shape, ap (λ v. v.now) shape)
        (begin_order-Recorded cfg req (reserved_key (order_scope req) hash expires_at)
          sess.branch_id res w₁ w' (subst IdsGiven (sym shape) given) key h)

  -- An order that was placed and is sent again at once is answered by the same order with the same
  -- lines, and nothing is written: no second order, no line, no event. Before the first request its key
  -- has one row at most, as the unique index has it, and ids are given out in order.
  pub order_sent_again :
      (res : PlaceOrderResult) (w w' : World)
      → length (key_rows (order_scope req) w) ≤ 1
      → IdsGiven w
      → place_order cfg digest req w ≡ (ok res, w')
      → place_order cfg digest req w' ≡ (ok res, w')
  unfolding place_order
  order_sent_again res w w' one given h =
      let (sess, w₁, e₁, h₁) =
        done_bind (open_session req) (λ sess. require_ordering_host cfg req >> after_host sess) w w'
          res h in
      let (same₁, opened) = open_session-Opened cfg req w sess w₁ e₁ in
      let (_, w₂, e₂, h₂) =
        done_bind (require_ordering_host cfg req) (λ _. after_host sess) w₁ w' res h₁ in
      let host = subst (λ v. require_ordering_host cfg req v ≡ (ok tt, w₂)) same₁ e₂ in
      let (may, (keys, orders, items, next, now)) =
        admitted-MayOrder cfg req w sess w₂ opened host in
      let (o, w₃, e₃, h₃) =
        done_bind (replay_order req (hash_order_request digest req)) (after_look sess) w₂ w' res
          h₂ in
      found_again sess res o w₂ w₃ w'
        (subst
          (λ ks.
            length (select (λ (k : IdempotencyKey). same_scope k.scope (order_scope req)) ks) ≤ 1)
          (sym keys) one)
        (IdsGiven-same w w₂ items next given) may e₃
        (replay_order-Looked req (hash_order_request digest req) w₂ w₃ o e₃) h₃
