-- ===== src/Payment/Initiate.antt =====
-- initiatePayment of backend/internal/services/payment.go. The host authority, the promo service and
-- the publisher are wired (cmd/server/main.go); the metrics are left out. `hash` stands for
-- hashPaymentRequest, a SHA-256 of the request's JSON, and `fresh_ref` for "pay_" and a new uuid.
use Prim.Native.String.{String}
use text.Mathlib.Text.{◌==◌ as str_eq}
use qr_dining.Base.{ℕ, ◌+◌, ⊤, Bool, true, false, not, Option, none, some, if◌then◌else◌}
use qr_dining.Base.Rows.{find?}
use qr_dining.Domain.{
  Error, active, payment_pending, provider_pending, completed, not_session_host, session_not_active,
  idempotency_conflict, idempotency_in_progress, one_non_terminal_violation,
}
use qr_dining.Store.{
  World, Payment, Reference, Config, Op, ok, err, attempt, Result, pure, fail, gets, or_fail,
  fail_if, if_found, emit, with_tx, ◌>>=◌, ◌>>◌, when, publish, payment_initiated, promo_applied,
  IdempotencyScope, IdempotencyKey, KeyStatus, get_session_by_id, get_branch_by_id,
  transition_session_to_payment_pending, is_status, is_open_for, get_payment_by_id,
  next_payment_number, create_bill_snapshot, create_payment, create_idempotency_key,
  get_idempotency_key, complete_idempotency_key, fail_idempotency_key,
  create_promo_redemption_for_payment, increment_promo_redemption_count,
}
use qr_dining.Session.{authorize_host_action}
use qr_dining.Promo.{validate_promo}
use qr_dining.Payment.Requests.{
  InitiatePaymentRequest, normalize_payment_method_status, bill_snapshot_params, text_or_null,
  or_default,
}
use qr_dining.Payment.Settlement.{advisory, maybe_close_settled_session}

pub record InitiatePaymentResult : Type 0 where
  pub payment : Payment
  pub created : Bool

abbrev pub has_key : InitiatePaymentRequest → Bool
has_key req = not (str_eq req.idempotency_key "")

abbrev pub idem_scope : InitiatePaymentRequest → IdempotencyScope
idem_scope req = record {
  scope_id = req.session_id;
  actor_type = or_default req.actor_type "guest";
  actor_id = req.actor_id;
  key = req.idempotency_key;
}

abbrev pub day_seconds : ℕ
day_seconds = 86400

-- The host gate.
unfoldable pub require_host : Config → InitiatePaymentRequest → Op ⊤
require_host cfg req = when (str_eq (or_default req.actor_type "guest") "participant") do
  authorized ← authorize_host_action cfg req.session_id req.actor_id
  fail_if (not authorized) not_session_host

abbrev pub completed_resource : IdempotencyKey → Option ℕ
completed_resource k = elim k.status [ KeyStatus.completed ↦ k.response_resource_id | _ ↦ none ]

-- pgx.ErrNoRows from GetIdempotencyKey: the row expired between the reservation and the read.
abbrev pub in_progress : Result IdempotencyKey → Op IdempotencyKey
in_progress (ok k) = pure k
in_progress (err _) = fail idempotency_in_progress

-- What an earlier request with this key has led to.
abbrev pub replay_existing : InitiatePaymentRequest → String → Op (Option Payment)
replay_existing req request_hash = do
  existing ← attempt (get_idempotency_key (idem_scope req)) in_progress
  fail_if (not (str_eq existing.request_hash request_hash)) idempotency_conflict
  id ← or_fail (completed_resource existing) idempotency_in_progress
  payment ← get_payment_by_id id
  pure (some payment)

-- The payment of an earlier request with this key, if there was one.
unfoldable pub replay : InitiatePaymentRequest → String → Op (Option Payment)
replay req request_hash = if not (has_key req) then pure none else do
  now ← gets (λ w. w.now)
  inserted ← create_idempotency_key (idem_scope req) request_hash (now + day_seconds)
  if inserted then pure none else replay_existing req request_hash

-- nonTerminalPaymentForSession
abbrev pub non_terminal_payment_for_session : ℕ → World → Option Payment
non_terminal_payment_for_session session_id w = find? (is_open_for session_id) w.payments

unfoldable pub reusable_non_terminal_payment_for_session : ℕ → Op (Option Payment)
reusable_non_terminal_payment_for_session session_id = do
  sess ← get_session_by_id session_id
  elim sess.status [
    | active ↦ gets (non_terminal_payment_for_session session_id)
    | payment_pending ↦ gets (non_terminal_payment_for_session session_id)
    | _ ↦ pure none
  ]

unfoldable pub non_terminal_payment_for_payment_pending_session : ℕ → Op (Option Payment)
non_terminal_payment_for_payment_pending_session session_id = do
  sess ← get_session_by_id session_id
  elim sess.status [
    | payment_pending ↦ gets (non_terminal_payment_for_session session_id)
    | _ ↦ pure none
  ]

abbrev pub complete_key : InitiatePaymentRequest → Payment → Op ⊤
complete_key req payment = when (has_key req) (complete_idempotency_key (idem_scope req) payment.id)

abbrev pub fail_key : InitiatePaymentRequest → Op ⊤
fail_key req = when (has_key req) (fail_idempotency_key (idem_scope req))

-- The switch on the session's status inside the transaction: the payment to reuse, if any.
unfoldable pub freeze_session : InitiatePaymentRequest → Op (Option Payment)
freeze_session req = do
  sess ← get_session_by_id req.session_id
  elim sess.status [
    | active ↦ do
      row ← transition_session_to_payment_pending req.session_id
      fail_if (not row) session_not_active
      pure none
    | payment_pending ↦ gets (non_terminal_payment_for_session req.session_id)
    | _ ↦ fail session_not_active
  ]

-- The snapshot and the payment of the bill.
unfoldable pub record_payment : Config → InitiatePaymentRequest → String → Op Payment
record_payment cfg req fresh_ref = do
  let (method, status) = normalize_payment_method_status req.method req.staff_settlement_required
  let currency = or_default req.bill.currency "INR"
  let by_provider = is_status status provider_pending
  let provider = if by_provider then or_default req.provider "generic" else req.provider
  let ref =
      if by_provider
      then or_default req.provider_payment_ref fresh_ref
      else req.provider_payment_ref
  branch ← get_branch_by_id req.branch_id
  local_date ← gets (λ w. cfg.local_date branch.timezone w.now)
  sequence ← next_payment_number req.branch_id local_date
  let reference : Reference = record {
    branch_code = branch.branch_code;
    local_date = local_date;
    sequence = sequence;
  }
  snapshot ←
      create_bill_snapshot (bill_snapshot_params req.session_id req.branch_id req.bill currency)
  create_payment (record {
    id = 0;
    session_id = req.session_id;
    order_id = req.order_id;
    amount = req.bill.total;
    method = method;
    status = status;
    bill_snapshot_id = some snapshot.id;
    branch_id = req.branch_id;
    currency = currency;
    provider = text_or_null provider;
    provider_payment_ref = text_or_null ref;
    provider_order_ref = text_or_null req.provider_order_ref;
    completed_at = none;
    settled_by_staff_id = none;
    settled_at = none;
    business_date = local_date;
    sequence = sequence;
    reference = reference;
  })

-- The redemption of the request's promo against the payment; `true` if there was one.
unfoldable pub redeem_promo : Config → InitiatePaymentRequest → Payment → Option String → Op Bool
redeem_promo cfg req payment none = pure false
redeem_promo cfg req payment (some code) = do
  valid ← validate_promo cfg (record {
    branch_id = req.branch_id;
    code = code;
    order_total = req.bill.total + req.bill.discount_amount;
    phone = req.promo_phone;
  })
  create_promo_redemption_for_payment valid.promo_id payment.id valid.normalized_phone
  increment_promo_redemption_count valid.promo_id
  pure true

-- The transaction.
unfoldable pub take_payment :
    Config → InitiatePaymentRequest → String → Op (InitiatePaymentResult × Bool)
take_payment cfg req fresh_ref = do
  reused ← freeze_session req
  if_found reused
      (λ payment.
        complete_key req payment >> pure (record { payment = payment; created = false }, false))
      do
        payment ← record_payment cfg req fresh_ref
        promo ← redeem_promo cfg req payment req.promo_code
        complete_key req payment
        pure (record { payment = payment; created = true }, promo)

abbrev pub promo_code_of : InitiatePaymentRequest → String
promo_code_of req = elim req.promo_code [ none ↦ "" | some code ↦ code ]

unfoldable pub announce_payment : InitiatePaymentRequest → InitiatePaymentResult → Bool → Op ⊤
unfolding maybe_close_settled_session
announce_payment req result promo = when result.created do
  emit (publish req.session_id (payment_initiated result.payment))
  when promo (
      emit (
        publish req.session_id
          (promo_applied result.payment.id (promo_code_of req) req.bill.discount_amount)))
  when (is_status result.payment.status completed)
      (advisory (maybe_close_settled_session result.payment.session_id))

-- The errors after which a payment that somebody else has begun is looked for.
abbrev pub is_lost_race : Error → Bool
is_lost_race one_non_terminal_violation = true
is_lost_race session_not_active = true
is_lost_race _ = false

abbrev pub existing_after : Error → Result (Option Payment) → Option Payment
existing_after e (ok found) = if is_lost_race e then found else none
existing_after e (err _) = none

abbrev pub reuse : InitiatePaymentRequest → Payment → Op InitiatePaymentResult
reuse req payment = complete_key req payment >> pure (record { payment = payment; created = false })

unfoldable pub recover : InitiatePaymentRequest → Error → Op InitiatePaymentResult
recover req e =
    attempt (non_terminal_payment_for_payment_pending_session req.session_id)
      λ r. if_found (existing_after e r) (reuse req) (fail_key req >> fail e)

abbrev pub after_tx :
    InitiatePaymentRequest → Result (InitiatePaymentResult × Bool) → Op InitiatePaymentResult
after_tx req (ok (result, promo)) = announce_payment req result promo >> pure result
after_tx req (err e) = recover req e

-- The request when no earlier one with its key is found.
unfoldable pub begin_payment : Config → InitiatePaymentRequest → String → Op InitiatePaymentResult
begin_payment cfg req fresh_ref = attempt (with_tx (take_payment cfg req fresh_ref)) (after_tx req)

unfoldable pub initiate_payment :
    Config
    → (InitiatePaymentRequest → String)
    → InitiatePaymentRequest
    → String
    → Op InitiatePaymentResult
initiate_payment cfg hash req fresh_ref = do
  require_host cfg req
  earlier ← replay req (hash req)
  if_found earlier (λ payment. pure (record { payment = payment; created = false }))
      do
        reusable ← reusable_non_terminal_payment_for_session req.session_id
        if_found reusable (reuse req) (begin_payment cfg req fresh_ref)
