-- ===== src/Payment/Requests.antt =====
-- The requests of the payment service, and the pure helpers of backend/internal/services/payment.go.
-- Amounts are in hundredths.
use Prim.Native.String.{String}
use text.Mathlib.Text.{◌==◌ as str_eq}
use qr_dining.Base.{ℕ, Bool, ◌&&◌, Option, none, some, List, ◌==◌, if◌then◌else◌}
use qr_dining.Domain.{PaymentStatus, requires_staff_confirmation, provider_pending}
use qr_dining.Store.{Payment, PaymentMethod, BillSnapshot}

pub record BillSnapshotInput : Type 0 where
  pub subtotal : ℕ
  pub discount_amount : ℕ
  pub tax_amount : ℕ
  pub service_charge : ℕ
  pub tip_amount : ℕ
  pub total : ℕ
  pub currency : String
  pub source_order_ids : List ℕ
  pub created_by_actor : String

pub record InitiatePaymentRequest : Type 0 where
  pub session_id : ℕ
  pub branch_id : ℕ
  pub order_id : Option ℕ
  pub method : PaymentMethod
  pub bill : BillSnapshotInput
  pub staff_settlement_required : Bool
  pub provider : String
  pub provider_payment_ref : String
  pub provider_order_ref : String
  pub idempotency_key : String
  pub actor_type : String
  pub actor_id : ℕ
  pub promo_code : Option String
  pub promo_phone : Option (List ℕ)

-- Nothing depends on `staffRequired`, in the source neither.
abbrev pub normalize_payment_method_status : PaymentMethod → Bool → PaymentMethod × PaymentStatus
normalize_payment_method_status PaymentMethod.card _ =
    (PaymentMethod.card_manual, requires_staff_confirmation)
normalize_payment_method_status PaymentMethod.digital _ =
    (PaymentMethod.digital, requires_staff_confirmation)
normalize_payment_method_status PaymentMethod.cash _ =
    (PaymentMethod.cash, requires_staff_confirmation)
normalize_payment_method_status PaymentMethod.card_manual _ =
    (PaymentMethod.card_manual, requires_staff_confirmation)
normalize_payment_method_status PaymentMethod.upi _ =
    (PaymentMethod.upi, requires_staff_confirmation)
normalize_payment_method_status PaymentMethod.other_method _ =
    (PaymentMethod.other_method, provider_pending)

-- The row is given its id by the insertion.
abbrev pub bill_snapshot_params : ℕ → ℕ → BillSnapshotInput → String → BillSnapshot
bill_snapshot_params session_id branch_id bill currency = record {
  id = 0;
  session_id = session_id;
  branch_id = branch_id;
  subtotal = bill.subtotal;
  discount_amount = bill.discount_amount;
  tax_amount = bill.tax_amount;
  service_charge = bill.service_charge;
  tip_amount = bill.tip_amount;
  total = bill.total;
  currency = currency;
  source_order_ids = bill.source_order_ids;
  created_by_actor = bill.created_by_actor;
}

-- `pgtype.Text{String: s, Valid: s != ""}`
abbrev pub text_or_null : String → Option String
text_or_null s = if str_eq s "" then none else some s

abbrev pub or_default : String → String → String
or_default s default = if str_eq s "" then default else s

-- What a provider's event says of a payment.
pub record WebhookPaymentPayload : Type 0 where
  pub payment_ref : String
  pub amount : ℕ
  pub currency : String
  pub session_id : ℕ
  pub branch_id : ℕ

-- The error of verifyWebhookPayment is the answer `false`.
abbrev pub verify_webhook_payment : Payment → WebhookPaymentPayload → Bool
verify_webhook_payment payment payload =
    payment.amount == payload.amount
    && (str_eq payment.currency payload.currency
        && payment.session_id == payload.session_id
        && payment.branch_id == payload.branch_id)
