-- ===== src/Tests/PaymentRuns.antt =====
-- Payments, promos and what the services keep, at concrete inputs.
use qr_dining.Base.{true, ℕ, ◌≡◌, refl, ◌≢◌, none, some, List, [], ◌∷◌}
use qr_dining.Domain.{active, payment_pending, requires_staff_confirmation, PaymentStatus}
use qr_dining.Store.{World, Session, Payment, PaymentMethod, ok}
use qr_dining.Phone.{promo_normalize_phone, normalize_phone}
use qr_dining.Phone.Canonical.{reformatting_keeps_the_phone, normalize_phone_canonical}
use qr_dining.Presence.{seen_at, merge_last_seen}
use qr_dining.Presence.Merge.{seen_at-merge_last_seen, later, latest}
use qr_dining.Payment.{maybe_release_payment_pending}
use qr_dining.Payment.{cancel_outstanding_payments}
use qr_dining.Payment.Cancelling.{is_settled}
use qr_dining.Payment.Forcing.{forced_close_leaves_no_payment}
use qr_dining.Base.Rows.{All}
use qr_dining.Payment.Releasing.{release_waits_for_open_payment, release_reopens, session_row}
use qr_dining.Tests.Fixtures.{dinner, number, world}

abbrev pub bill : Payment
bill = record {
  id = 300;
  session_id = 100;
  order_id = none;
  amount = 45000;
  method = PaymentMethod.cash;
  status = requires_staff_confirmation;
  bill_snapshot_id = none;
  branch_id = 10;
  currency = "INR";
  provider = none;
  provider_payment_ref = none;
  provider_order_ref = none;
  completed_at = none;
  settled_by_staff_id = none;
  settled_at = none;
  business_date = 0;
  sequence = 1;
  reference = number;
}

abbrev frozen : Session
frozen = record dinner { status = payment_pending }

-- The guests wait to pay.
abbrev pub paying : World
paying = record world { sessions = frozen ∷ []; payments = bill ∷ [] }

-- The staff have withdrawn the payment, the freeze stands.
abbrev withdrawn : World
withdrawn = record paying { payments = record bill { status = PaymentStatus.cancelled } ∷ [] }

release_waits_for_open_payment_example : maybe_release_payment_pending 100 paying ≡ (ok tt, paying)
release_waits_for_open_payment_example = release_waits_for_open_payment 100 paying refl

release_reopens_example :
    let w' = (maybe_release_payment_pending 100 withdrawn).1 in
    (payment_pending ≡ payment_pending
      → session_row 100 w' ≡ some (record frozen { status = active }))
    × (payment_pending ≢ payment_pending → session_row 100 w' ≡ some frozen)
release_reopens_example = release_reopens 100 withdrawn frozen refl refl

reformatting_keeps_the_phone_example :
    promo_normalize_phone (b'9' ∷ b' ' ∷ b'8' ∷ []) ≡ promo_normalize_phone (b'9' ∷ b'8' ∷ [])
reformatting_keeps_the_phone_example =
    reformatting_keeps_the_phone (b'9' ∷ []) (b'8' ∷ []) b' ' refl

abbrev ten_digits : List ℕ
ten_digits = b'9' ∷ b'8' ∷ b'7' ∷ b'6' ∷ b'5' ∷ b'4' ∷ b'3' ∷ b'2' ∷ b'1' ∷ b'0' ∷ []

abbrev indian : List ℕ
indian = b'+' ∷ b'9' ∷ b'1' ∷ ten_digits

normalizes : normalize_phone ten_digits ≡ some indian
unfolding normalize_phone
normalizes = refl

normalize_phone_canonical_example :
    (normalize_phone indian ≡ some indian) × (promo_normalize_phone indian ≡ indian)
normalize_phone_canonical_example = normalize_phone_canonical ten_digits indian normalizes

seen_at-merge_last_seen_example :
    seen_at 7 (merge_last_seen ((7, 30) ∷ []) ((7, 40) ∷ []))
    ≡ later (latest 7 ((7, 30) ∷ [])) (latest 7 ((7, 40) ∷ []))
seen_at-merge_last_seen_example = seen_at-merge_last_seen 7 ((7, 30) ∷ []) ((7, 40) ∷ [])

forced_close_leaves_no_payment_example :
    All
      (λ p. p.session_id ≡ 100 → is_settled p.status ≡ true)
      (cancel_outstanding_payments frozen 7 "left" paying).1.payments
forced_close_leaves_no_payment_example = forced_close_leaves_no_payment frozen 7 "left" paying
