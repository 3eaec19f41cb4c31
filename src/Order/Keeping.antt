-- ===== src/Order/Keeping.antt =====
-- What the transaction of an order leaves in the database together with the key of its request
-- (PlaceOrder of backend/internal/services/order.go).
use qr_dining.Base.{ℕ, ⊤, ◌≡◌, sym, ap, ◌∙◌, subst, List, [], ◌∷◌, ◌==◌}
use qr_dining.Base.Rows.{select, find?}
use qr_dining.Domain.{no_rows}
use qr_dining.Store.{
  World, Config, Branch, Order, IdempotencyKey, Result, Op, ok, pure, gets, ◌>>=◌, ◌>>◌, same_scope,
  get_branch_by_id, next_order_number, complete_idempotency_key, Reads, reads, read_only,
  Reads-or_fail, Reads-done, done_bind, done_pure,
}
use qr_dining.Idempotency.{key_rows, completed_key, complete_idempotency_key-one}
use qr_dining.Order.{
  PlaceOrderRequest, PlaceOrderResult, ResolvedItem, order_scope, order_row, insert_order,
  write_order,
}
use qr_dining.Order.Recording.{SameGuests, SameKeys, Stored, IdsGiven, insert_order-Stored}

-- The order can be read back, and by the key of its request.
pub data Recorded (req : PlaceOrderRequest) (k : IdempotencyKey) (res : PlaceOrderResult)
    (w w' : World) : Type 0 where
  recorded :
      SameGuests w w'
      → key_rows (order_scope req) w' ≡ completed_key k res.order.id ∷ []
      → Stored res w'
      → Recorded req k res w w'

Reads-get_branch_by_id : (id : ℕ) → Reads (get_branch_by_id id)
unfolding get_branch_by_id
Reads-get_branch_by_id id =
    reads λ w. (read_only (Reads-or_fail (find? (λ (b : Branch). b.id == id) w.branches) no_rows)) w

completed_Stored :
    (req : PlaceOrderRequest) (k : IdempotencyKey) (res : PlaceOrderResult) (w w₁ w' : World)
    → key_rows (order_scope req) w ≡ k ∷ []
    → SameKeys w w₁ × Stored res w₁
    → complete_idempotency_key (order_scope req) res.order.id w₁ ≡ (ok tt, w')
    → Recorded req k res w w'
unfolding complete_idempotency_key
completed_Stored req k res w w₁ w' only (keys, stored) h =
    let only' =
      ap (select (λ (r : IdempotencyKey). same_scope r.scope (order_scope req))) keys.1 ∙ only in
    let done = complete_idempotency_key-one (order_scope req) w₁ k only' res.order.id in
    subst (Recorded req k res w) (ap (λ (r : Result ⊤ × World). r.1) h)
      (recorded keys.0 done stored)

-- The transaction after the branch and the time have been read.
numbered-Recorded :
    (cfg : Config) (req : PlaceOrderRequest) (k : IdempotencyKey) (branch_id : ℕ)
    (rs : List ResolvedItem) (branch : Branch) (now : ℕ) (res : PlaceOrderResult) (w w' : World)
    → IdsGiven w
    → key_rows (order_scope req) w ≡ k ∷ []
    → (next_order_number branch_id (cfg.local_date branch.timezone now) >>= λ seq.
          insert_order
            (order_row cfg req branch_id rs branch.order_prefix branch.branch_code seq
              (cfg.local_date branch.timezone now)
              now)
            rs
          >>= λ result. complete_idempotency_key (order_scope req) result.order.id >> pure result)
        w
      ≡ (ok res, w')
    → Recorded req k res w w'
unfolding next_order_number
numbered-Recorded cfg req k branch_id rs branch now res w w' given only h =
    let date = cfg.local_date branch.timezone now in
    let row : ℕ → Order =
      λ seq. order_row cfg req branch_id rs branch.order_prefix branch.branch_code seq date now in
    let finish : PlaceOrderResult → Op PlaceOrderResult =
      λ result. complete_idempotency_key (order_scope req) result.order.id >> pure result in
    let (seq, w₁, e₁, h₁) =
      done_bind (next_order_number branch_id date) (λ seq. insert_order (row seq) rs >>= finish) w
        w' res h in
    let same₁ = ap (λ (r : Result ℕ × World). r.1) e₁ in
    let (result, w₂, e₂, h₂) = done_bind (insert_order (row seq) rs) finish w₁ w' res h₁ in
    let given₁ = subst IdsGiven same₁ given in
    let (keys, stored) = insert_order-Stored (row seq) rs result w₁ w₂ given₁ e₂ in
    let (_, w₃, e₃, h₃) =
      done_bind (complete_idempotency_key (order_scope req) result.order.id) (λ _. pure result) w₂
        w' res h₂ in
    let (mine, same₃) = done_pure result res w₃ w' h₃ in
    let keys' = subst (λ v. SameKeys v w₂) (sym same₁) keys in
    subst (Recorded req k res w) (sym same₃) (
      subst (λ r. Recorded req k r w w₃) mine
        (completed_Stored req k result w w₂ w₃ only ((keys'.0, keys'.1), stored) e₃))

pub write_order-Recorded :
    (cfg : Config) (req : PlaceOrderRequest) (k : IdempotencyKey) (branch_id : ℕ)
    (rs : List ResolvedItem) (res : PlaceOrderResult) (w w' : World)
    → IdsGiven w
    → key_rows (order_scope req) w ≡ k ∷ []
    → write_order cfg req branch_id rs w ≡ (ok res, w')
    → Recorded req k res w w'
unfolding write_order
write_order-Recorded cfg req k branch_id rs res w w' given only h =
    let finish : PlaceOrderResult → Op PlaceOrderResult =
      λ result. complete_idempotency_key (order_scope req) result.order.id >> pure result in
    let rest : Branch → ℕ → Op PlaceOrderResult = λ branch now.
      next_order_number branch_id (cfg.local_date branch.timezone now) >>= λ seq.
      insert_order
        (order_row cfg req branch_id rs branch.order_prefix branch.branch_code seq
          (cfg.local_date branch.timezone now) now)
        rs
      >>= finish in
    let (branch, w₁, e₁, h₁) =
      done_bind (get_branch_by_id branch_id) (λ branch. gets (λ w. w.now) >>= rest branch) w w' res
        h in
    let same₁ = Reads-done (Reads-get_branch_by_id branch_id) e₁ in
    let only₁ = subst (λ v. key_rows (order_scope req) v ≡ k ∷ []) (sym same₁) only in
    subst (λ v. Recorded req k res v w') same₁
      (numbered-Recorded cfg req k branch_id rs branch w₁.now res w₁ w'
        (subst IdsGiven (sym same₁) given) only₁ h₁)
