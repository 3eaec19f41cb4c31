-- ===== src/Payment/Settlement.antt =====
-- What ends a payment (backend/internal/services/payment.go): the staff's confirmation and
-- withdrawal, the release of the freeze and the closing of a settled session; and the staff's forced
-- close of services/session_close.go with the payments that it cancels.
use Prim.Native.String.{String}
use qr_dining.Base.{
  ℕ, ⊤, Bool, true, false, ◌&&◌, not, Option, none, some, List, [], ◌∷◌, ◌==◌, ltb, leb,
  if◌then◌else◌, is_some,
}
use qr_dining.Base.Rows.{find?, exists, all, length}
use qr_dining.Domain.{
  SessionStatus, Error, PaymentStatus, completed, requires_staff_confirmation, is_session_terminal,
  validate_payment_transition, payment_not_found, invalid_payment_transition, bill_snapshot_stale,
  session_not_found, session_closed,
}
use qr_dining.Store.{
  World, Session, Payment, Op, Result, ok, err, attempt, pure, fail, gets, fail_if, if_found, emit,
  ◌>>=◌, ◌>>◌, when, publish, log_event, accrue_points, payment_completed, payment_cancelled,
  cancellation_logged, force_cancellation_logged, by_staff, get_session_by_id,
  transition_session_to_active, is_terminal_payment_status, is_status, get_payment_by_id,
  get_bill_snapshot_by_id, list_payments_for_session, update_payment_status_expected,
  settle_payment_row, sum_completed_payments_for_bill_snapshot, active_order_ids,
}
use qr_dining.Session.{close_session, close_session_record, credential_safe_session}

-- A call whose error is logged and then dropped.
abbrev pub advisory : Op ⊤ → Op ⊤
advisory m w = (ok tt, (m w).1)

abbrev member : ℕ → List ℕ → Bool
member id ids = exists (λ other. other == id) ids

-- Compares the bill's orders with the session's orders that are not cancelled.
unfoldable pub ensure_snapshot_fresh : ℕ → Payment → Op ⊤
ensure_snapshot_fresh snapshot_id payment = do
  snapshot ← get_bill_snapshot_by_id snapshot_id
  current ← gets (active_order_ids payment.session_id)
  fail_if (not (length snapshot.source_order_ids == length current)) bill_snapshot_stale
  fail_if (not (all (λ id. member id current) snapshot.source_order_ids)) bill_snapshot_stale

-- Time.After, where a null time is Go's zero time.
abbrev after : Option ℕ → Option ℕ → Bool
after none _ = false
after (some _) none = true
after (some a) (some b) = ltb b a

abbrev latest_completed : Option Payment → List Payment → Option Payment
latest_completed latest [] = latest
latest_completed latest (p ∷ ps) =
    let newer : Bool = elim latest [ none ↦ true | some l ↦ after p.completed_at l.completed_at ] in
    latest_completed
      (if is_status p.status completed && is_some p.bill_snapshot_id && newer
        then some p
        else latest)
      ps

-- The part of maybeCloseSettledSession behind the choice of the payment.
abbrev close_if_paid : ℕ → Payment → ℕ → Op ⊤
close_if_paid session_id payment snapshot_id = do
  ensure_snapshot_fresh snapshot_id payment
  snapshot ← get_bill_snapshot_by_id snapshot_id
  paid ← gets (sum_completed_payments_for_bill_snapshot session_id snapshot_id)
  when (leb snapshot.total paid) (close_session session_id none)

unfoldable pub maybe_close_settled_session : ℕ → Op ⊤
unfolding ensure_snapshot_fresh
maybe_close_settled_session session_id = do
  payments ← gets (list_payments_for_session session_id)
  if_found (latest_completed none payments)
      (λ payment. if_found payment.bill_snapshot_id (close_if_paid session_id payment) (pure tt))
      (pure tt)

unfoldable pub maybe_release_payment_pending : ℕ → Op ⊤
maybe_release_payment_pending session_id = do
  payments ← gets (list_payments_for_session session_id)
  if exists {A = Payment} (λ p. not (is_terminal_payment_status p.status)) payments
      then pure tt
      else transition_session_to_active session_id >> pure tt

unfoldable pub settle_payment_by_staff : ℕ → ℕ → ℕ → Op Payment
settle_payment_by_staff payment_id staff_id branch_id = do
  payment ← get_payment_by_id payment_id
  fail_if (not (payment.branch_id == branch_id)) payment_not_found
  fail_if (not (is_status payment.status requires_staff_confirmation)) invalid_payment_transition
  if_found payment.bill_snapshot_id (λ snapshot_id. ensure_snapshot_fresh snapshot_id payment)
      (pure tt)
  updated ← settle_payment_row payment_id staff_id branch_id
  emit (publish payment.session_id (payment_completed updated))
  emit
      (log_event payment.session_id payment.branch_id by_staff staff_id (payment_completed updated))
  emit (accrue_points updated)
  advisory (maybe_close_settled_session payment.session_id)
  pure updated

-- Go's `if err := …; err != nil { return err }` on the error of a validator.
abbrev pub check : Option Error → Op ⊤
check none = pure tt
check (some e) = fail e

abbrev status_of : ℕ → World → Option SessionStatus
status_of session_id w = elim (find? (λ s. s.id == session_id) w.sessions) [
  | none ↦ none
  | some s ↦ some s.status
]

unfoldable pub cancel_payment_by_staff : ℕ → ℕ → ℕ → String → Op Payment
cancel_payment_by_staff payment_id staff_id branch_id reason = do
  payment ← get_payment_by_id payment_id
  fail_if (not (payment.branch_id == branch_id)) payment_not_found
  check (validate_payment_transition payment.status PaymentStatus.cancelled)
  updated ← update_payment_status_expected payment_id payment.status PaymentStatus.cancelled
  advisory (maybe_release_payment_pending payment.session_id)
  status ← gets (status_of payment.session_id)
  emit (publish payment.session_id (payment_cancelled updated status))
  emit (
      log_event payment.session_id payment.branch_id by_staff staff_id
        (cancellation_logged updated.id payment.status reason))
  pure updated

-- What one payment adds to the ids cancelled and the ids stranded so far, after its update.
abbrev pub after_cancel :
    Session → ℕ → String → Payment → List ℕ × List ℕ → Result Payment → Op (List ℕ × List ℕ)
after_cancel sess staff_id reason p (cancelled, stranded) (err _) =
    pure (cancelled, p.id ∷ stranded)
after_cancel sess staff_id reason p (cancelled, stranded) (ok _) = do
  emit (
      log_event sess.id sess.branch_id by_staff staff_id
        (force_cancellation_logged p.id p.status reason))
  pure (p.id ∷ cancelled, stranded)

-- One payment of cancelOutstandingPayments.
abbrev pub cancel_one : Session → ℕ → String → Payment → List ℕ × List ℕ → Op (List ℕ × List ℕ)
cancel_one sess staff_id reason p (cancelled, stranded) =
    if is_terminal_payment_status p.status
    then pure (cancelled, stranded)
    else if is_some (validate_payment_transition p.status PaymentStatus.cancelled)
    then pure (cancelled, p.id ∷ stranded)
    else attempt (update_payment_status_expected p.id p.status PaymentStatus.cancelled)
        (after_cancel sess staff_id reason p (cancelled, stranded))

abbrev pub cancel_all : Session → ℕ → String → List Payment → List ℕ × List ℕ → Op (List ℕ × List ℕ)
cancel_all sess staff_id reason [] done = pure done
cancel_all sess staff_id reason (p ∷ ps) done =
    cancel_one sess staff_id reason p done >>= cancel_all sess staff_id reason ps

-- The ids newest last in the source, newest first here.
unfoldable pub cancel_outstanding_payments : Session → ℕ → String → Op (List ℕ × List ℕ)
cancel_outstanding_payments sess staff_id reason = do
  payments ← gets (list_payments_for_session sess.id)
  cancel_all sess staff_id reason payments ([], [])

pub record ForceCloseResult : Type 0 where
  pub session : Session
  pub cancelled_payment_ids : List ℕ
  pub stranded_payment_ids : List ℕ

unfoldable pub force_close_by_staff : ℕ → ℕ → ℕ → String → Op ForceCloseResult
force_close_by_staff id staff_id branch_id reason = do
  sess ← get_session_by_id id
  fail_if (not (sess.branch_id == branch_id)) session_not_found
  fail_if (is_session_terminal sess.status) session_closed
  done ← close_session_record sess by_staff staff_id
  fail_if (not done) session_closed
  (cancelled, stranded) ← cancel_outstanding_payments sess staff_id reason
  updated ← get_session_by_id id
  pure (record {
    session = credential_safe_session updated;
    cancelled_payment_ids = cancelled;
    stranded_payment_ids = stranded;
  })
