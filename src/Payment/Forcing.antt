-- ===== src/Payment/Forcing.antt =====
-- A forced close leaves no payment behind (cancelOutstandingPayments of
-- backend/internal/services/session_close.go).
use Prim.Native.String.{String}
use qr_dining.Base.{
  ℕ, ◌≡◌, refl, inl, inr, Bool, true, false, ◌&&◌, Option, none, some, List, [], ◌∷◌, arith, ◌==◌,
  subst, sym, ap, ◌∙◌, map, if◌then◌else◌, is_some, Bool-cases,
}
use qr_dining.Base.Rows.{update_where, All, select}
use qr_dining.Domain.{PaymentStatus, validate_payment_transition}
use qr_dining.Store.{
  World, Session, Payment, is_terminal_payment_status, is_status, list_payments_for_session,
  update_payment_status_expected, move_payment, returned, Result, ok, err, Op, ◌>>=◌,
}
use qr_dining.Payment.{cancel_one, cancel_all, after_cancel, cancel_outstanding_payments}
use qr_dining.Payment.Cancelling.{
  cancellable, cancelled_by, cancelled_by_all, is_settled, Settled, Listed, Settled-by_all,
  Listed-select,
}

map-skipped :
    (now : ℕ) (p : Payment) (rows : List Payment)
    → cancellable p.status ≡ false
    → map (cancelled_by now p) rows ≡ rows
map-skipped now p [] h = refl
map-skipped now p (r ∷ rows) h = ground (arith, map-skipped now p rows h)

map-cancelled :
    (now : ℕ) (p : Payment) (rows : List Payment)
    → cancellable p.status ≡ true
    → update_where
        (λ r. r.id == p.id && is_status r.status p.status)
        (move_payment PaymentStatus.cancelled now)
        rows
      ≡ map (cancelled_by now p) rows
map-cancelled now p [] h = refl
map-cancelled now p (r ∷ rows) h = ground (arith, map-cancelled now p rows h)

returned_world :
    (id : ℕ) (done : Bool) (row : Option Payment) (w : World) → (returned id done row w).1 ≡ w
returned_world id true none w = refl
returned_world id true (some p) w = refl
returned_world id false row w = refl

after_cancel_rows :
    (sess : Session) (staff_id : ℕ) (reason : String) (p : Payment) (done : List ℕ × List ℕ)
    (r : Result Payment) (w : World)
    → ((after_cancel sess staff_id reason p done r w).1.payments ≡ w.payments)
      × ((after_cancel sess staff_id reason p done r w).1.now ≡ w.now)
after_cancel_rows sess staff_id reason p (c, s) (ok q) w = (refl, refl)
after_cancel_rows sess staff_id reason p (c, s) (err e) w = (refl, refl)

-- The payments after the pass over one, and after the pass over all.
payments-update :
    (id : ℕ) (current next : PaymentStatus) (w : World)
    → (update_payment_status_expected id current next w).1 ≡ record w {
      payments =
          update_where
            (λ p. p.id == id && is_status p.status current)
            (move_payment next w.now)
            w.payments;
    }
unfolding update_payment_status_expected
payments-update id current next w = returned_world id _ _ _

abbrev Passed : (Payment → Payment) → World → World → Type 0
Passed f w w' = (w'.payments ≡ map f w.payments) × (w'.now ≡ w.now)

payments-cancel_one :
    (sess : Session) (staff_id : ℕ) (reason : String) (p : Payment) (done : List ℕ × List ℕ)
    (w : World)
    → Passed (cancelled_by w.now p) w (cancel_one sess staff_id reason p done w).1
payments-cancel_one sess staff_id reason p done w =
    let moved = payments-update p.id p.status PaymentStatus.cancelled w in
    let tried = update_payment_status_expected p.id p.status PaymentStatus.cancelled w in
    let rest = after_cancel_rows sess staff_id reason p done tried.0 tried.1 in
    elim (Bool-cases (cancellable p.status)) [
      | inl met ↦
          let rows = map-cancelled w.now p w.payments met in
          (ground (arith, moved, rest, rows), ground (arith, moved, rest, rows))
      | inr other ↦
          let rows = map-skipped w.now p w.payments other in
          (ground (arith, rows), ground (arith, rows))
    ]

map-map :
    (f g : Payment → Payment) (rows : List Payment)
    → map g (map f rows) ≡ map {A = Payment} (λ r. g (f r)) rows
map-map f g [] = refl
map-map f g (r ∷ rows) = ground (arith, map-map f g rows)

map-same : (rows : List Payment) → map {A = Payment} (λ r. r) rows ≡ rows
map-same [] = refl
map-same (r ∷ rows) = ground (arith, map-same rows)

abbrev Succeeds : Op (List ℕ × List ℕ) → World → Type 0
Succeeds m w = (d : List ℕ × List ℕ) × ((m w).0 ≡ ok d)

after_cancel-Succeeds :
    (sess : Session) (staff_id : ℕ) (reason : String) (p : Payment) (done : List ℕ × List ℕ)
    (r : Result Payment) (w : World)
    → Succeeds (after_cancel sess staff_id reason p done r) w
after_cancel-Succeeds sess staff_id reason p (c, s) (ok q) w = ((p.id ∷ c, s), refl)
after_cancel-Succeeds sess staff_id reason p (c, s) (err e) w = ((c, p.id ∷ s), refl)

if-Succeeds :
    (b : Bool) (m k : Op (List ℕ × List ℕ)) (w : World)
    → Succeeds m w
    → Succeeds k w
    → Succeeds (if b then m else k) w
if-Succeeds true m k w h h' = h
if-Succeeds false m k w h h' = h'

cancel_one-Succeeds :
    (sess : Session) (staff_id : ℕ) (reason : String) (p : Payment) (done : List ℕ × List ℕ)
    (w : World)
    → Succeeds (cancel_one sess staff_id reason p done) w
cancel_one-Succeeds sess staff_id reason p (c, s) w =
    let tried = update_payment_status_expected p.id p.status PaymentStatus.cancelled w in
    if-Succeeds (is_terminal_payment_status p.status) _ _ w ((c, s), refl)
      (if-Succeeds (is_some (validate_payment_transition p.status PaymentStatus.cancelled)) _ _ w
        ((c, p.id ∷ s), refl) (after_cancel-Succeeds sess staff_id reason p (c, s) tried.0 tried.1))

bind_ok :
    (m : Op (List ℕ × List ℕ)) (f : List ℕ × List ℕ → Op (List ℕ × List ℕ)) (d : List ℕ × List ℕ)
    (w : World)
    → (m w).0 ≡ ok d
    → (m >>= f) w ≡ f d (m w).1
bind_ok m f d w h = ground (arith, h)

payments-cancel_all :
    (sess : Session) (staff_id : ℕ) (reason : String) (ps : List Payment) (done : List ℕ × List ℕ)
    (w : World)
    → Passed (cancelled_by_all w.now ps) w (cancel_all sess staff_id reason ps done w).1
payments-cancel_all sess staff_id reason [] done w = (sym (map-same w.payments), refl)
payments-cancel_all sess staff_id reason (p ∷ ps) done w =
    let one = cancel_one sess staff_id reason p done in
    let (d, okay) = cancel_one-Succeeds sess staff_id reason p done w in
    let (rows, time) = payments-cancel_one sess staff_id reason p done w in
    let (rows', time') = payments-cancel_all sess staff_id reason ps d (one w).1 in
    let fused = map-map (cancelled_by w.now p) (cancelled_by_all w.now ps) w.payments in
    subst (λ v. Passed (cancelled_by_all w.now (p ∷ ps)) w v.1)
      (sym (bind_ok one (cancel_all sess staff_id reason ps) d w okay))
      (
        rows'
            ∙ ap (λ t. map (cancelled_by_all t ps) (one w).1.payments) time
            ∙ ap (map (cancelled_by_all w.now ps)) rows
            ∙ fused,
        time' ∙ time,
      )

All-map :
    (id now : ℕ) (ps all : List Payment)
    → ((r : Payment) → Listed r all → r.session_id ≡ id → Settled (cancelled_by_all now ps r))
    → All (λ r. r.session_id ≡ id → Settled r) (map (cancelled_by_all now ps) all)
All-map id now ps [] h = tt
All-map id now ps (r ∷ rows) h = (
  λ e. h r (inl refl) (sym (session_kept now ps r) ∙ e),
  All-map id now ps rows (λ q m e. h q (inr m) e),
)
  where
    session_kept :
        (now : ℕ) (ps : List Payment) (r : Payment)
        → (cancelled_by_all now ps r).session_id ≡ r.session_id
    session_kept now [] r = refl
    session_kept now (p ∷ ps) r = session_kept now ps (cancelled_by now p r) ∙ ground arith

-- After the payments of a session have been cancelled none of them is left open, but for one in status
-- pending, which the transition table does not let anybody cancel.
pub forced_close_leaves_no_payment :
    (sess : Session) (staff_id : ℕ) (reason : String) (w : World)
    → All
        (λ p. p.session_id ≡ sess.id → is_settled p.status ≡ true)
        (cancel_outstanding_payments sess staff_id reason w).1.payments
unfolding cancel_outstanding_payments list_payments_for_session
forced_close_leaves_no_payment sess staff_id reason w =
    let mine : Payment → Bool = λ p. p.session_id == sess.id in
    let read = select mine w.payments in
    let (rows, _) = payments-cancel_all sess staff_id reason read ([], []) w in
    subst (All (λ p. p.session_id ≡ sess.id → is_settled p.status ≡ true)) (sym rows) (
      All-map sess.id w.now read w.payments (λ r listed e.
        Settled-by_all w.now read r (Listed-select mine r w.payments (ground arith) listed)))
