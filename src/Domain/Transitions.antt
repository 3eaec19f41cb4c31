-- ===== src/Domain/Transitions.antt =====
-- What the transition tables of backend/internal/domain/statemachine.go allow.
use qr_dining.Base.{ℕ, suc, ◌+◌, ◌≤◌, ◌≡◌, ◌↔◌, ◌≢◌, true, none, arith}
use qr_dining.Domain.{
  OrderStatus, SessionStatus, is_session_terminal, validate_order_transition,
  validate_session_transition,
}

-- A session status that IsSessionTerminal reports as final has no exit in the table, and every
-- other status has one.
pub terminal_iff_no_exit :
    (s : SessionStatus)
    → (is_session_terminal s ≡ true)
      ↔ ((t : SessionStatus) → validate_session_transition s t ≢ none)
unfolding validate_session_transition
terminal_iff_no_exit s = (λ h t e. ground arith, λ h. ground (arith, h SessionStatus.closed))

-- A chain of order status updates that the table allows, with its length.
pub data OrderPath (s : OrderStatus) : OrderStatus → ℕ → Type 0 where
  start : OrderPath s s 0
  move :
      {t u : OrderStatus} {n : ℕ}
      → OrderPath s t n
      → validate_order_transition t u ≡ none
      → OrderPath s u (suc n)

-- How far an order is from `pending` along its longest route; both ends lie at the end.
abbrev progress : OrderStatus → ℕ
progress OrderStatus.pending = 0
progress OrderStatus.confirmed = 1
progress OrderStatus.preparing = 2
progress OrderStatus.ready = 3
progress _ = 4

progress_step :
    (s t : OrderStatus) → validate_order_transition s t ≡ none → progress s + 1 ≤ progress t
unfolding validate_order_transition
progress_step s t h = ground arith

progress_path : {s t : OrderStatus} {n : ℕ} → OrderPath s t n → progress s + n ≤ progress t
progress_path start = omega arith
progress_path (move {t} {u} p h) = omega (arith, progress_path p, progress_step t u h)

progress_bound : (s : OrderStatus) → progress s ≤ 4
progress_bound s = ground arith

-- No order is updated more than four times, whatever route its updates take.
pub order_updates_bounded : {s t : OrderStatus} {n : ℕ} → OrderPath s t n → n ≤ 4
order_updates_bounded {t} p = omega (arith, progress_path p, progress_bound t)
