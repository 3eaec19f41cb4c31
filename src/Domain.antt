-- ===== src/Domain.antt =====
-- backend/internal/domain: the status enums, the transition tables and their validators, and the
-- error values that the services return.
mod Statuses
mod Errors
pub mod Transitions
pub use Statuses.*
pub use Errors.*
use qr_dining.Base.{
  Bool, true, false, Option, none, some, List, [], ◌∷◌, Comparable, contains, if◌then◌else◌,
}

abbrev pub is_session_terminal : SessionStatus → Bool
is_session_terminal SessionStatus.closed = true
is_session_terminal SessionStatus.abandoned = true
is_session_terminal SessionStatus.expired = true
is_session_terminal _ = false

abbrev pub is_session_cart_frozen : SessionStatus → Bool
is_session_cart_frozen s = SessionStatus-comparable.eq s SessionStatus.payment_pending

-- A Go map from a status to the statuses that it allows.
abbrev pub Table : Type 0 → Type 0
Table T = List (T × List T)

abbrev order_transitions : Table OrderStatus
order_transitions =
    (OrderStatus.pending, OrderStatus.confirmed ∷ OrderStatus.cancelled ∷ [])
    ∷ (OrderStatus.confirmed, OrderStatus.preparing ∷ OrderStatus.cancelled ∷ [])
    ∷ (OrderStatus.preparing, OrderStatus.ready ∷ OrderStatus.cancelled ∷ [])
    ∷ (OrderStatus.ready, OrderStatus.served ∷ [])
    ∷ (OrderStatus.served, [])
    ∷ (OrderStatus.cancelled, [])
    ∷ []

abbrev session_transitions : Table SessionStatus
session_transitions =
    (active, payment_pending ∷ awaiting_reactivation ∷ closed ∷ abandoned ∷ expired ∷ [])
    ∷ (payment_pending, active ∷ awaiting_reactivation ∷ closed ∷ abandoned ∷ expired ∷ [])
    ∷ (awaiting_reactivation, active ∷ payment_pending ∷ abandoned ∷ expired ∷ closed ∷ [])
    ∷ (closed, [])
    ∷ (abandoned, [])
    ∷ (expired, [])
    ∷ []

abbrev assistance_transitions : Table AssistanceStatus
assistance_transitions =
    (AssistanceStatus.pending, AssistanceStatus.acknowledged ∷ AssistanceStatus.resolved ∷ [])
    ∷ (AssistanceStatus.acknowledged, AssistanceStatus.resolved ∷ [])
    ∷ (AssistanceStatus.resolved, [])
    ∷ []

abbrev payment_transitions : Table PaymentStatus
payment_transitions =
    (
      PaymentStatus.pending,
      completed ∷ failed ∷ provider_pending ∷ requires_staff_confirmation ∷ [],
    )
    ∷ (
      requested,
      provider_pending ∷ requires_staff_confirmation ∷ PaymentStatus.cancelled ∷ failed ∷ [],
    )
    ∷ (provider_pending, completed ∷ failed ∷ PaymentStatus.cancelled ∷ [])
    ∷ (requires_staff_confirmation, completed ∷ failed ∷ PaymentStatus.cancelled ∷ [])
    ∷ (completed, refunded ∷ partially_refunded ∷ [])
    ∷ (partially_refunded, refunded ∷ [])
    ∷ (failed, PaymentStatus.pending ∷ requested ∷ [])
    ∷ (PaymentStatus.cancelled, [])
    ∷ (refunded, [])
    ∷ []

module _ {T : Type 0} ⦃c : Comparable T⦄ where
  -- `table[from]`, with `none` for a missing key.
  abbrev allowed_from : T → Table T → Option (List T)
  allowed_from s [] = none
  allowed_from s ((k, allowed) ∷ rest) = if c.eq k s then some allowed else allowed_from s rest

  -- `none` is Go's nil error.
  abbrev pub validate_transition : T → T → Table T → Error → Option Error
  validate_transition s t table sentinel = elim (allowed_from s table) [
    | none ↦ some sentinel
    | some allowed ↦ if contains t allowed then none else some sentinel
  ]

unfoldable pub validate_order_transition : OrderStatus → OrderStatus → Option Error
validate_order_transition s t = validate_transition s t order_transitions invalid_order_transition

unfoldable pub validate_session_transition : SessionStatus → SessionStatus → Option Error
validate_session_transition s t = validate_transition s t session_transitions session_closed

unfoldable pub validate_assistance_transition : AssistanceStatus → AssistanceStatus → Option Error
validate_assistance_transition s t =
    validate_transition s t assistance_transitions invalid_assistance_transition

unfoldable pub validate_payment_transition : PaymentStatus → PaymentStatus → Option Error
validate_payment_transition s t =
    validate_transition s t payment_transitions invalid_payment_transition
