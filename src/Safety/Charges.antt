-- ===== src/Safety/Charges.antt =====
-- The start of a payment and the provider's events keep the rules (backend/internal/services/payment.go).
use Prim.Native.String.{String}
use text.Mathlib.Text.{◌==◌ as str_eq}
use qr_dining.Base.{
  ℕ, ◌≡◌, refl, Bool, true, false, Option, none, some, arith, Option-cases, Bool-cases, inl, inr,
}
use qr_dining.Domain.{Error, PaymentStatus, completed, failed, refunded}
use qr_dining.Store.{Config, Payment, IdempotencyKey, Result, ok, err, is_terminal_payment_status}
use qr_dining.Promo.{ValidatePromoRequest, validate_promo}
use qr_dining.Payment.{
  InitiatePaymentRequest, InitiatePaymentResult, WebhookPaymentPayload, require_host, replay,
  in_progress, freeze_session, non_terminal_payment_for_payment_pending_session,
  reusable_non_terminal_payment_for_session, record_payment, redeem_promo, take_payment,
  announce_payment, recover, after_tx, begin_payment, initiate_payment, reject, after_move,
  after_update, apply_webhook, after_lookup, after_parse, handle_event, process_webhook,
  parse_webhook_payload, WebhookCodec, ProcessWebhookRequest, RawPayload, parsed, status_of_event,
}
use qr_dining.Safety.Rules.{
  Keeps, Keeps-bind, Keeps-pure, Keeps-fail, Keeps-status, Keeps-gets, Keeps-attempt, keeps_rules,
}
use qr_dining.Safety.Queries.{Keeps-transition_session_to_payment_pending}
use qr_dining.Safety.Sessions.{
  Keeps-get_session_by_id, Keeps-get_branch_by_id, Keeps-authorize_host_action,
}
use qr_dining.Safety.PaymentRows.{
  Keeps-complete_idempotency_key, Keeps-create_bill_snapshot, Keeps-create_idempotency_key,
  Keeps-create_payment, Keeps-create_promo_redemption, Keeps-fail_idempotency_key,
  Keeps-get_idempotency_key, Keeps-get_payment_by_id, Keeps-get_payment_by_provider_ref,
  Keeps-get_promo, Keeps-increment_promo, Keeps-insert_webhook_event, Keeps-mark_webhook_processed,
  Keeps-next_payment_number, Keeps-update_payment_status_expected,
}
use qr_dining.Safety.Payments.{
  Keeps-advisory, Keeps-maybe_close_settled_session, Keeps-maybe_release_payment_pending,
}

ruleset charge_rules = (
  keeps_rules, Keeps-advisory, Keeps-maybe_close_settled_session,
  Keeps-maybe_release_payment_pending, Keeps-get_session_by_id, Keeps-get_branch_by_id,
  Keeps-authorize_host_action, Keeps-get_payment_by_id, Keeps-create_idempotency_key,
  Keeps-get_idempotency_key, Keeps-complete_idempotency_key, Keeps-fail_idempotency_key,
  Keeps-next_payment_number, Keeps-create_bill_snapshot, Keeps-create_payment, Keeps-get_promo,
  Keeps-create_promo_redemption, Keeps-increment_promo, Keeps-insert_webhook_event,
  Keeps-mark_webhook_processed, Keeps-get_payment_by_provider_ref,
)

Keeps-validate_promo : (cfg : Config) (req : ValidatePromoRequest) → Keeps (validate_promo cfg req)
unfolding validate_promo
Keeps-validate_promo cfg req = search charge_rules depth 40

Keeps-require_host : (cfg : Config) (req : InitiatePaymentRequest) → Keeps (require_host cfg req)
unfolding require_host
Keeps-require_host cfg req = search charge_rules depth 40

pub Keeps-in_progress : (r : Result IdempotencyKey) → Keeps (in_progress r)
Keeps-in_progress (ok k) = Keeps-pure k
Keeps-in_progress (err e) = Keeps-fail _

Keeps-replay : (req : InitiatePaymentRequest) (hash : String) → Keeps (replay req hash)
unfolding replay
Keeps-replay req hash = search (charge_rules, Keeps-in_progress) depth 60 fits 4000

Keeps-freeze_session : (req : InitiatePaymentRequest) → Keeps (freeze_session req)
unfolding freeze_session
Keeps-freeze_session req = Keeps-bind _ _ (Keeps-get_session_by_id req.session_id) λ sess.
    Keeps-status sess.status _ _ _ _
      (search (charge_rules, Keeps-transition_session_to_payment_pending) depth 30) (Keeps-gets _)
      (Keeps-fail _) (Keeps-fail _)

Keeps-pending :
    (session_id : ℕ) → Keeps (non_terminal_payment_for_payment_pending_session session_id)
unfolding non_terminal_payment_for_payment_pending_session
Keeps-pending session_id = Keeps-bind _ _ (Keeps-get_session_by_id session_id) λ sess.
    Keeps-status sess.status _ _ _ _ (Keeps-pure none) (Keeps-gets _) (Keeps-pure none)
      (Keeps-pure none)

Keeps-reusable : (session_id : ℕ) → Keeps (reusable_non_terminal_payment_for_session session_id)
unfolding reusable_non_terminal_payment_for_session
Keeps-reusable session_id = Keeps-bind _ _ (Keeps-get_session_by_id session_id) λ sess.
    Keeps-status sess.status _ _ _ _ (Keeps-gets _) (Keeps-gets _) (Keeps-pure none)
      (Keeps-pure none)

Keeps-record_payment :
    (cfg : Config) (req : InitiatePaymentRequest) (ref : String)
    → Keeps (record_payment cfg req ref)
unfolding record_payment
Keeps-record_payment cfg req ref = search charge_rules depth 60 fits 4000

Keeps-redeem_promo :
    (cfg : Config) (req : InitiatePaymentRequest) (payment : Payment) (code : Option String)
    → Keeps (redeem_promo cfg req payment code)
unfolding redeem_promo
Keeps-redeem_promo cfg req payment none = Keeps-pure false
Keeps-redeem_promo cfg req payment (some code) =
    search (charge_rules, Keeps-validate_promo) depth 60 fits 4000

Keeps-take_payment :
    (cfg : Config) (req : InitiatePaymentRequest) (ref : String) → Keeps (take_payment cfg req ref)
unfolding take_payment
Keeps-take_payment cfg req ref =
    search (charge_rules, Keeps-freeze_session, Keeps-record_payment, Keeps-redeem_promo) depth 60
      fits 4000

Keeps-announce_payment :
    (req : InitiatePaymentRequest) (r : InitiatePaymentResult) (promo : Bool)
    → Keeps (announce_payment req r promo)
unfolding announce_payment
Keeps-announce_payment req r promo = search charge_rules depth 40

Keeps-recover : (req : InitiatePaymentRequest) (e : Error) → Keeps (recover req e)
unfolding recover
Keeps-recover req e = search (charge_rules, Keeps-pending) depth 40

Keeps-after_tx :
    (req : InitiatePaymentRequest) (r : Result (InitiatePaymentResult × Bool))
    → Keeps (after_tx req r)
Keeps-after_tx req (ok (result, promo)) = search (charge_rules, Keeps-announce_payment) depth 20
Keeps-after_tx req (err e) = Keeps-recover req e

pub Keeps-initiate_payment :
    (cfg : Config) (hash : InitiatePaymentRequest → String) (req : InitiatePaymentRequest)
    (ref : String)
    → Keeps (initiate_payment cfg hash req ref)
unfolding initiate_payment begin_payment
Keeps-initiate_payment cfg hash req ref =
    search
      (
        charge_rules, Keeps-require_host, Keeps-replay, Keeps-reusable, Keeps-take_payment,
        Keeps-after_tx,
      )
      depth 60 fits 4000

Keeps-reject : (event_id payment_id : ℕ) → Keeps (reject event_id payment_id)
Keeps-reject event_id payment_id = search charge_rules depth 20

Keeps-after_move : (p : Payment) (next : PaymentStatus) (q : Payment) → Keeps (after_move p next q)
Keeps-after_move p completed q = search charge_rules depth 40
Keeps-after_move p failed q = search charge_rules depth 20
Keeps-after_move p PaymentStatus.cancelled q = search charge_rules depth 20
Keeps-after_move p refunded q = Keeps-pure tt
Keeps-after_move p PaymentStatus.pending q = Keeps-pure tt
Keeps-after_move p PaymentStatus.requested q = Keeps-pure tt
Keeps-after_move p PaymentStatus.provider_pending q = Keeps-pure tt
Keeps-after_move p PaymentStatus.requires_staff_confirmation q = Keeps-pure tt
Keeps-after_move p PaymentStatus.partially_refunded q = Keeps-pure tt

ruleset event_rules = (charge_rules, Keeps-reject, Keeps-after_move)

Keeps-after_update :
    (event_id : ℕ) (p : Payment) (next : PaymentStatus) (r : Result Payment)
    → Keeps (after_update event_id p next r)
Keeps-after_update event_id p next (ok q) = search event_rules depth 20
Keeps-after_update event_id p next (err e) = Keeps-reject event_id p.id

Keeps-apply_webhook :
    (event_id : ℕ) (p : Payment) (next : PaymentStatus)
    → is_terminal_payment_status next ≡ true
    → Keeps (apply_webhook event_id p next)
unfolding apply_webhook
Keeps-apply_webhook event_id p next ends =
    search
      (
        event_rules,
        Keeps-after_update,
        Keeps-update_payment_status_expected p.id p.status next ends,
      )
      depth 20

Keeps-after_lookup :
    (event_id : ℕ) (payload : WebhookPaymentPayload) (next : PaymentStatus) (r : Result Payment)
    → is_terminal_payment_status next ≡ true
    → Keeps (after_lookup event_id payload next r)
Keeps-after_lookup event_id payload next (err e) ends = Keeps-reject event_id 0
Keeps-after_lookup event_id payload next (ok p) ends =
    search (event_rules, Keeps-apply_webhook event_id p next ends) depth 20

Keeps-after_parse :
    (provider : String) (event_id : ℕ) (payload : WebhookPaymentPayload) (next : PaymentStatus)
    → is_terminal_payment_status next ≡ true
    → Keeps (after_parse provider event_id (some (payload, next)))
Keeps-after_parse provider event_id payload next ends =
    Keeps-attempt _ _ (Keeps-get_payment_by_provider_ref provider payload.payment_ref)
      (λ r. Keeps-after_lookup event_id payload next r ends)

-- An event only ever ends a payment.
parsed_ends :
    (p : RawPayload) (uuid : Option ℕ) (event_type : String) {payload : WebhookPaymentPayload}
    {next : PaymentStatus}
    → parsed p uuid (status_of_event event_type) ≡ some (payload, next)
    → is_terminal_payment_status next ≡ true
parsed_ends p uuid event_type e = ground arith

pub parse_ends :
    (codec : WebhookCodec) (event_type text : String) {payload : WebhookPaymentPayload}
    {next : PaymentStatus}
    → parse_webhook_payload codec event_type text ≡ some (payload, next)
    → is_terminal_payment_status next ≡ true
unfolding parse_webhook_payload
parse_ends codec event_type text {payload} {next} e = elim (Option-cases (codec.unmarshal text)) [
  | inl bad ↦ absurd (ground arith)
  | inr (p, read) ↦ elim (Bool-cases (str_eq p.payment_ref "")) [
    | inl missing ↦ absurd (ground arith)
    | inr given ↦
        parsed_ends p (codec.parse_uuid p.session_id) event_type {payload = payload} {next = next}
          (ground arith)
  ]
]

pub Keeps-handle_event :
    (codec : WebhookCodec) (req : ProcessWebhookRequest) (event_id : ℕ)
    → Keeps (handle_event codec req event_id)
unfolding handle_event
Keeps-handle_event codec req event_id =
    go (parse_webhook_payload codec req.event_type req.payload) refl
  where
    go :
        (o : Option (WebhookPaymentPayload × PaymentStatus))
        → parse_webhook_payload codec req.event_type req.payload ≡ o
        → Keeps (after_parse req.provider event_id o)
    go none e = Keeps-reject event_id 0
    go (some (payload, next)) e =
        Keeps-after_parse req.provider event_id payload next
          (parse_ends codec req.event_type req.payload e)

pub Keeps-process_webhook :
    (codec : WebhookCodec) (req : ProcessWebhookRequest) → Keeps (process_webhook codec req)
unfolding process_webhook
Keeps-process_webhook codec req = search (charge_rules, Keeps-handle_event) depth 20
