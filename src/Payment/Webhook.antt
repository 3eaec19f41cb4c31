-- ===== src/Payment/Webhook.antt =====
-- ProcessWebhook of backend/internal/services/payment.go. The JSON decoder and uuid.Parse are the
-- fields of `WebhookCodec`.
use Prim.Native.String.{String}
use text.Mathlib.Text.{◌==◌ as str_eq}
use qr_dining.Base.{ℕ, ⊤, true, false, ◌||◌, Option, none, some, ◌==◌, if◌then◌else◌, is_some}
use qr_dining.Base.Rows.{find?}
use qr_dining.Domain.{PaymentStatus, completed, failed, refunded, validate_payment_transition}
use qr_dining.Store.{
  World, Payment, Op, ok, err, Result, attempt, pure, gets, if_found, emit, ◌>>=◌, ◌>>◌, publish,
  log_event, accrue_points, payment_completed, audit_webhook_failure, by_system,
  get_payment_by_provider_ref, update_payment_status_expected, insert_webhook_event,
  mark_webhook_processed,
}
use qr_dining.Payment.Requests.{WebhookPaymentPayload, verify_webhook_payment}
use qr_dining.Payment.Settlement.{
  advisory, maybe_close_settled_session, maybe_release_payment_pending,
}

-- The fields of the provider's JSON.
pub record RawPayload : Type 0 where
  pub payment_ref : String
  pub amount : ℕ
  pub currency : String
  pub session_id : String
  pub branch_id : ℕ

pub record WebhookCodec : Type 0 where
  pub unmarshal : String → Option RawPayload
  pub parse_uuid : String → Option ℕ

pub record ProcessWebhookRequest : Type 0 where
  pub provider : String
  pub external_event_id : String
  pub event_type : String
  pub payload : String

abbrev pub status_of_event : String → Option PaymentStatus
status_of_event event_type =
    if str_eq event_type "payment.captured"
      || str_eq event_type "payment.success"
      || str_eq event_type "charge.succeeded"
    then some completed
    else if str_eq event_type "payment.failed" || str_eq event_type "charge.failed"
    then some failed
    else if str_eq event_type "refund.created" || str_eq event_type "payment.refunded"
    then some refunded
    else none

abbrev pub parsed :
    RawPayload → Option ℕ → Option PaymentStatus → Option (WebhookPaymentPayload × PaymentStatus)
parsed p (some session_id) (some status) = some (
  record {
    payment_ref = p.payment_ref;
    amount = p.amount;
    currency = p.currency;
    session_id = session_id;
    branch_id = p.branch_id;
  },
  status,
)
parsed p _ _ = none

unfoldable pub parse_webhook_payload :
    WebhookCodec → String → String → Option (WebhookPaymentPayload × PaymentStatus)
parse_webhook_payload codec event_type payload = elim (codec.unmarshal payload) [
  | none ↦ none
  | some p ↦
      if str_eq p.payment_ref ""
      then none
      else parsed p (codec.parse_uuid p.session_id) (status_of_event event_type)
]

-- The event is kept as failed, and the failure is audited.
abbrev pub reject : ℕ → ℕ → Op ⊤
reject event_id payment_id = do
  mark_webhook_processed event_id payment_id true
  emit (audit_webhook_failure event_id payment_id)

-- `sess, _ := GetSessionByID`: branch 0 for a missing row.
abbrev branch_of_session : ℕ → World → ℕ
branch_of_session session_id w = elim (find? (λ s. s.id == session_id) w.sessions) [
  | none ↦ 0
  | some s ↦ s.branch_id
]

abbrev pub after_move : Payment → PaymentStatus → Payment → Op ⊤
after_move payment next updated = elim next [
  | completed ↦ do
    emit (publish payment.session_id (payment_completed updated))
    branch_id ← gets (branch_of_session payment.session_id)
    emit (log_event payment.session_id branch_id by_system 0 (payment_completed updated))
    emit (accrue_points updated)
    advisory (maybe_close_settled_session payment.session_id)
  | failed ↦ advisory (maybe_release_payment_pending payment.session_id)
  | PaymentStatus.cancelled ↦ advisory (maybe_release_payment_pending payment.session_id)
  | _ ↦ pure tt
]

-- What comes after the update of the payment's status, which may have lost a race.
abbrev pub after_update : ℕ → Payment → PaymentStatus → Result Payment → Op ⊤
after_update event_id payment next (err _) = reject event_id payment.id
after_update event_id payment next (ok updated) = do
  mark_webhook_processed event_id payment.id false
  after_move payment next updated

-- The move of a payment that the event names and that its payload fits.
unfoldable pub apply_webhook : ℕ → Payment → PaymentStatus → Op ⊤
unfolding maybe_close_settled_session maybe_release_payment_pending
apply_webhook event_id payment next =
    if is_some (validate_payment_transition payment.status next)
    then reject event_id payment.id
    else attempt (update_payment_status_expected payment.id payment.status next)
        (after_update event_id payment next)

abbrev pub after_lookup : ℕ → WebhookPaymentPayload → PaymentStatus → Result Payment → Op ⊤
after_lookup event_id payload next (err _) = reject event_id 0
after_lookup event_id payload next (ok payment) =
    if verify_webhook_payment payment payload
    then apply_webhook event_id payment next
    else reject event_id payment.id

abbrev pub after_parse : String → ℕ → Option (WebhookPaymentPayload × PaymentStatus) → Op ⊤
after_parse provider event_id none = reject event_id 0
after_parse provider event_id (some (payload, next)) =
    attempt (get_payment_by_provider_ref provider payload.payment_ref)
      (after_lookup event_id payload next)

-- What happens to an event that was not seen before.
unfoldable pub handle_event : WebhookCodec → ProcessWebhookRequest → ℕ → Op ⊤
unfolding apply_webhook
handle_event codec req event_id =
    after_parse req.provider event_id (parse_webhook_payload codec req.event_type req.payload)

unfoldable pub process_webhook : WebhookCodec → ProcessWebhookRequest → Op ⊤
process_webhook codec req = do
  event ← insert_webhook_event req.external_event_id req.provider req.event_type
  if_found event (handle_event codec req) (pure tt)
