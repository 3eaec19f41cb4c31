-- ===== src/Safety/Payments.antt =====
-- The payment service keeps the rules (backend/internal/services/payment.go, session_close.go).
use Prim.Native.String.{String}
use qr_dining.Base.{ℕ, refl, Option, none, some, List, [], ◌∷◌, ⊤}
use qr_dining.Domain.{Error, PaymentStatus}
use qr_dining.Store.{Session, Payment, Op, Result, ok, err, update_payment_status_expected}
use qr_dining.Payment.{
  advisory, check, ensure_snapshot_fresh, maybe_close_settled_session,
  maybe_release_payment_pending, settle_payment_by_staff, cancel_payment_by_staff, after_cancel,
  cancel_one, cancel_all, cancel_outstanding_payments, force_close_by_staff,
}
use qr_dining.Safety.Rules.{Keeps, keeps, Keeps-bind, Keeps-pure, Keeps-fail, keeps_rules}
use qr_dining.Safety.Queries.{Keeps-transition_session_to_active}
use qr_dining.Safety.Sessions.{
  Keeps-get_session_by_id, Keeps-close_session, Keeps-close_session_record,
}
use qr_dining.Safety.PaymentRows.{
  Keeps-update_payment_status_expected, Keeps-settle_payment_row, Keeps-get_payment_by_id,
  Keeps-get_bill_snapshot_by_id,
}

pub Keeps-advisory : (m : Op ⊤) → Keeps m → Keeps (advisory m)
Keeps-advisory m (keeps h) = keeps h

Keeps-check : (e : Option Error) → Keeps (check e)
Keeps-check none = Keeps-pure tt
Keeps-check (some e) = Keeps-fail e

-- The only status that this file writes.
Keeps-cancel :
    (id : ℕ) (current : PaymentStatus)
    → Keeps (update_payment_status_expected id current PaymentStatus.cancelled)
Keeps-cancel id current =
    Keeps-update_payment_status_expected id current PaymentStatus.cancelled refl

ruleset payment_rules = (
  keeps_rules, Keeps-advisory, Keeps-check, Keeps-cancel, Keeps-get_session_by_id,
  Keeps-close_session, Keeps-transition_session_to_active, Keeps-settle_payment_row,
  Keeps-get_payment_by_id, Keeps-get_bill_snapshot_by_id,
)

Keeps-ensure_snapshot_fresh : (id : ℕ) (p : Payment) → Keeps (ensure_snapshot_fresh id p)
unfolding ensure_snapshot_fresh
Keeps-ensure_snapshot_fresh id p = search payment_rules depth 30

pub Keeps-maybe_close_settled_session : (id : ℕ) → Keeps (maybe_close_settled_session id)
unfolding maybe_close_settled_session
Keeps-maybe_close_settled_session id = search (payment_rules, Keeps-ensure_snapshot_fresh) depth 40

pub Keeps-maybe_release_payment_pending : (id : ℕ) → Keeps (maybe_release_payment_pending id)
unfolding maybe_release_payment_pending
Keeps-maybe_release_payment_pending id = search payment_rules depth 40

pub Keeps-settle_payment_by_staff :
    (payment_id staff_id branch_id : ℕ)
    → Keeps (settle_payment_by_staff payment_id staff_id branch_id)
unfolding settle_payment_by_staff
Keeps-settle_payment_by_staff payment_id staff_id branch_id =
    search (payment_rules, Keeps-ensure_snapshot_fresh, Keeps-maybe_close_settled_session) depth 60
      fits 4000

pub Keeps-cancel_payment_by_staff :
    (payment_id staff_id branch_id : ℕ) (reason : String)
    → Keeps (cancel_payment_by_staff payment_id staff_id branch_id reason)
unfolding cancel_payment_by_staff
Keeps-cancel_payment_by_staff payment_id staff_id branch_id reason =
    search (payment_rules, Keeps-maybe_release_payment_pending) depth 60 fits 4000

Keeps-after_cancel :
    (sess : Session) (staff_id : ℕ) (reason : String) (p : Payment) (done : List ℕ × List ℕ)
    (r : Result Payment)
    → Keeps (after_cancel sess staff_id reason p done r)
Keeps-after_cancel sess staff_id reason p (c, s) (ok _) = search keeps_rules depth 20
Keeps-after_cancel sess staff_id reason p (c, s) (err _) = search keeps_rules depth 20

Keeps-cancel_one :
    (sess : Session) (staff_id : ℕ) (reason : String) (p : Payment) (done : List ℕ × List ℕ)
    → Keeps (cancel_one sess staff_id reason p done)
Keeps-cancel_one sess staff_id reason p done = search (payment_rules, Keeps-after_cancel) depth 20

pub Keeps-cancel_all :
    (sess : Session) (staff_id : ℕ) (reason : String) (ps : List Payment) (done : List ℕ × List ℕ)
    → Keeps (cancel_all sess staff_id reason ps done)
Keeps-cancel_all sess staff_id reason [] done = Keeps-pure done
Keeps-cancel_all sess staff_id reason (p ∷ ps) done =
    Keeps-bind (cancel_one sess staff_id reason p done) (cancel_all sess staff_id reason ps)
      (Keeps-cancel_one sess staff_id reason p done) (Keeps-cancel_all sess staff_id reason ps)

Keeps-cancel_outstanding_payments :
    (sess : Session) (staff_id : ℕ) (reason : String)
    → Keeps (cancel_outstanding_payments sess staff_id reason)
unfolding cancel_outstanding_payments
Keeps-cancel_outstanding_payments sess staff_id reason =
    search (payment_rules, Keeps-cancel_all) depth 20

pub Keeps-force_close_by_staff :
    (id staff_id branch_id : ℕ) (reason : String)
    → Keeps (force_close_by_staff id staff_id branch_id reason)
unfolding force_close_by_staff
Keeps-force_close_by_staff id staff_id branch_id reason =
    search (payment_rules, Keeps-close_session_record, Keeps-cancel_outstanding_payments) depth 60
      fits 4000
