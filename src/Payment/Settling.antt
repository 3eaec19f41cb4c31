-- ===== src/Payment/Settling.antt =====
-- What the staff's confirmation does to a payment (SettlePaymentByStaff of
-- backend/internal/services/payment.go).
use qr_dining.Base.{ℕ, ◌≡◌, ◌≢◌, inl, inr, false, Option, some, arith, ◌==◌, Option-cases}
use qr_dining.Base.Rows.{find?}
use qr_dining.Domain.{
  PaymentStatus-comparable, requires_staff_confirmation, payment_not_found,
  invalid_payment_transition,
}
use qr_dining.Store.{World, Payment, err, get_payment_by_id}
use qr_dining.Payment.{settle_payment_by_staff}

abbrev pub payment_of : ℕ → World → Option Payment
payment_of id w = find? (λ p. p.id == id) w.payments

-- The staff settle and withdraw only payments of their own branch; for any other payment the answer is
-- the one for a payment that does not exist, and nothing changes.
pub foreign_payment_is_hidden :
    (payment_id staff_id branch_id : ℕ) (w : World)
    → ((p : Payment) → payment_of payment_id w ≡ some p → (p.branch_id == branch_id) ≡ false)
    → settle_payment_by_staff payment_id staff_id branch_id w ≡ (err payment_not_found, w)
unfolding settle_payment_by_staff get_payment_by_id
foreign_payment_is_hidden payment_id staff_id branch_id w foreign =
    elim (Option-cases (payment_of payment_id w)) [
      | inl missing ↦ ground arith
      | inr (p, found) ↦ ground (arith, foreign p found)
    ]

-- A payment that does not wait for the staff's confirmation cannot be settled: a second settlement of
-- the same payment fails and changes nothing.
pub settled_payment_is_not_settled_again :
    (payment_id staff_id branch_id : ℕ) (w : World) (p : Payment)
    → payment_of payment_id w ≡ some p
    → p.branch_id ≡ branch_id
    → p.status ≢ requires_staff_confirmation
    → settle_payment_by_staff payment_id staff_id branch_id w ≡ (err invalid_payment_transition, w)
unfolding settle_payment_by_staff get_payment_by_id
settled_payment_is_not_settled_again payment_id staff_id branch_id w p found mine over =
    ground (arith, (PaymentStatus-comparable.eq_iff p.status requires_staff_confirmation).0)
