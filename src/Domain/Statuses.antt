-- ===== src/Domain/Statuses.antt =====
-- The status enums of backend/internal/domain/statemachine.go, whose string constants are the
-- constructors here. `==` on the strings is equality of their places in the source's order.
use qr_dining.Base.{ℕ, ◌≡◌, ◌↔◌, true, arith, ◌==◌, Comparable}

pub data OrderStatus : Type 0 where
  pending confirmed preparing ready served cancelled : OrderStatus

pub data SessionStatus : Type 0 where
  active payment_pending awaiting_reactivation closed abandoned expired : SessionStatus

pub data AssistanceStatus : Type 0 where
  pending acknowledged resolved : AssistanceStatus

pub data PaymentStatus : Type 0 where
  pending requested provider_pending requires_staff_confirmation completed failed cancelled refunded
        partially_refunded :
      PaymentStatus

abbrev order_place : OrderStatus → ℕ
order_place OrderStatus.pending = 0
order_place confirmed = 1
order_place preparing = 2
order_place ready = 3
order_place served = 4
order_place OrderStatus.cancelled = 5

abbrev session_place : SessionStatus → ℕ
session_place active = 0
session_place payment_pending = 1
session_place awaiting_reactivation = 2
session_place closed = 3
session_place abandoned = 4
session_place expired = 5

abbrev assistance_place : AssistanceStatus → ℕ
assistance_place AssistanceStatus.pending = 0
assistance_place acknowledged = 1
assistance_place resolved = 2

abbrev payment_place : PaymentStatus → ℕ
payment_place PaymentStatus.pending = 0
payment_place requested = 1
payment_place provider_pending = 2
payment_place requires_staff_confirmation = 3
payment_place completed = 4
payment_place failed = 5
payment_place PaymentStatus.cancelled = 6
payment_place refunded = 7
payment_place partially_refunded = 8

pub order_eq_iff : (a b : OrderStatus) → ((order_place a == order_place b) ≡ true) ↔ (a ≡ b)
order_eq_iff a b = (λ h. ground arith, λ h. ground arith)

pub session_eq_iff : (a b : SessionStatus) → ((session_place a == session_place b) ≡ true) ↔ (a ≡ b)
session_eq_iff a b = (λ h. ground arith, λ h. ground arith)

pub assistance_eq_iff :
    (a b : AssistanceStatus) → ((assistance_place a == assistance_place b) ≡ true) ↔ (a ≡ b)
assistance_eq_iff a b = (λ h. ground arith, λ h. ground arith)

pub payment_eq_iff : (a b : PaymentStatus) → ((payment_place a == payment_place b) ≡ true) ↔ (a ≡ b)
payment_eq_iff a b = (λ h. ground arith, λ h. ground arith)

instance abbrev pub OrderStatus-comparable : Comparable OrderStatus
OrderStatus-comparable = record {
  eq = λ a b. order_place a == order_place b;
  eq_iff = order_eq_iff;
}

instance abbrev pub SessionStatus-comparable : Comparable SessionStatus
SessionStatus-comparable = record {
  eq = λ a b. session_place a == session_place b;
  eq_iff = session_eq_iff;
}

instance abbrev pub AssistanceStatus-comparable : Comparable AssistanceStatus
AssistanceStatus-comparable = record {
  eq = λ a b. assistance_place a == assistance_place b;
  eq_iff = assistance_eq_iff;
}

instance abbrev pub PaymentStatus-comparable : Comparable PaymentStatus
PaymentStatus-comparable = record {
  eq = λ a b. payment_place a == payment_place b;
  eq_iff = payment_eq_iff;
}
