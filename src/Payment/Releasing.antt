-- ===== src/Payment/Releasing.antt =====
-- The freeze of a session while it is paid: who sets it and when it is lifted
-- (backend/internal/services/payment.go).
use Prim.Native.String.{String}
use text.Mathlib.Text.{◌==◌ as str_eq}
use qr_dining.Base.{
  ℕ, ◌≡◌, refl, ◌≢◌, Bool, true, false, ◌&&◌, not, Option, some, List, [], ◌∷◌, arith, ◌==◌,
}
use qr_dining.Base.Rows.{find?, exists, select, find?-update_where, find?-holds}
use qr_dining.Domain.{active, payment_pending, not_session_host}
use qr_dining.Store.{
  World, Session, Payment, Config, ok, err, transition_session_to_active, is_open_for,
  list_payments_for_session, is_terminal_payment_status, ◌is◌,
}
use qr_dining.Session.{authorize_host_action}
use qr_dining.Session.Authority.{unauthorized_changes_nothing}
use qr_dining.Payment.{
  InitiatePaymentRequest, or_default, initiate_payment, require_host, maybe_release_payment_pending,
}

abbrev pub session_row : ℕ → World → Option Session
session_row id w = find? (λ s. s.id == id) w.sessions

-- Whether a payment of the session is under way.
abbrev pub has_open_payment : ℕ → World → Bool
has_open_payment id w = exists (is_open_for id) w.payments

exists-select :
    (p q : Payment → Bool) (xs : List Payment)
    → exists q (select p xs) ≡ exists (λ x. p x && q x) xs
exists-select p q [] = refl
exists-select p q (x ∷ xs) = ground (arith, exists-select p q xs)

-- While a payment of the session is under way its freeze stays, with everything else.
pub release_waits_for_open_payment :
    (id : ℕ) (w : World)
    → has_open_payment id w ≡ true
    → maybe_release_payment_pending id w ≡ (ok tt, w)
unfolding maybe_release_payment_pending list_payments_for_session
release_waits_for_open_payment id w h = ground (
  arith,
  exists-select (λ p. p.session_id == id) (λ p. not (is_terminal_payment_status p.status))
      w.payments,
)

-- With no payment under way, a session that waits for payment is active again, and any other keeps its
-- status.
pub release_reopens :
    (id : ℕ) (w : World) (s : Session)
    → has_open_payment id w ≡ false
    → session_row id w ≡ some s
    → let w' = (maybe_release_payment_pending id w).1 in
      (s.status ≡ payment_pending → session_row id w' ≡ some (record s { status = active }))
      × (s.status ≢ payment_pending → session_row id w' ≡ some s)
unfolding maybe_release_payment_pending list_payments_for_session transition_session_to_active
release_reopens id w s h found =
    let none_open =
      exists-select (λ p. p.session_id == id) (λ p. not (is_terminal_payment_status p.status))
        w.payments in
    let row =
      find?-update_where (λ (s : Session). s.id) (λ s. s.id == id && s.status is payment_pending)
        (λ s. record s { status = active }) id w.sessions (λ s. refl) in
    let mine = find?-holds (λ (s : Session). s.id == id) w.sessions found in
    (λ e. ground (arith, none_open, row, mine), λ e. ground (arith, none_open, row, mine))

-- A participant whom the session's host authority refuses cannot start a payment: nothing is frozen,
-- no idempotency key is used up, and nothing else changes.
pub refused_guest_freezes_nothing :
    (cfg : Config) (hash : InitiatePaymentRequest → String) (req : InitiatePaymentRequest)
    (ref : String) (w : World)
    → str_eq (or_default req.actor_type "guest") "participant" ≡ true
    → (authorize_host_action cfg req.session_id req.actor_id w).0 ≡ ok false
    → initiate_payment cfg hash req ref w ≡ (err not_session_host, w)
unfolding initiate_payment require_host
refused_guest_freezes_nothing cfg hash req ref w guest refused =
    let same = unauthorized_changes_nothing cfg req.session_id req.actor_id w (λ e. ground arith) in
    ground (arith, same)
