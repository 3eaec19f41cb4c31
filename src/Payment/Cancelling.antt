-- ===== src/Payment/Cancelling.antt =====
-- What a pass over payments to cancel does to one row (cancelOutstandingPayments of
-- backend/internal/services/session_close.go).
use qr_dining.Base.{
  ℕ, ◌≡◌, ◌⊎◌, inl, inr, Bool, true, false, ◌&&◌, not, List, [], ◌∷◌, arith, ◌==◌, subst, sym,
  is_some, Bool-cases,
}
use qr_dining.Base.Rows.{choose, select}
use qr_dining.Domain.{PaymentStatus, validate_payment_transition}
use qr_dining.Store.{Payment, is_terminal_payment_status, is_status, move_payment}

-- A payment that the transition table lets staff cancel.
abbrev pub cancellable : PaymentStatus → Bool
cancellable s =
    not (is_terminal_payment_status s)
    && not (is_some (validate_payment_transition s PaymentStatus.cancelled))

-- What the pass over one payment does to a row.
abbrev pub cancelled_by : ℕ → Payment → Payment → Payment
cancelled_by now p r =
    choose (cancellable p.status && (r.id == p.id && is_status r.status p.status))
      (move_payment PaymentStatus.cancelled now r) r

abbrev pub cancelled_by_all : ℕ → List Payment → Payment → Payment
cancelled_by_all now [] r = r
cancelled_by_all now (p ∷ ps) r = cancelled_by_all now ps (cancelled_by now p r)

-- Over, or in the one open status that the transition table does not let anybody cancel.
abbrev pub is_settled : PaymentStatus → Bool
is_settled PaymentStatus.pending = true
is_settled s = is_terminal_payment_status s

settled_or_cancellable : (s : PaymentStatus) → (is_settled s ≡ true) ⊎ (cancellable s ≡ true)
unfolding validate_payment_transition
settled_or_cancellable s = ground arith

abbrev pub Settled : Payment → Type 0
Settled r = is_settled r.status ≡ true

Settled-by_self : (now : ℕ) (r : Payment) → Settled (cancelled_by now r r)
Settled-by_self now r = ground (arith, settled_or_cancellable r.status)

-- The pass over one payment leaves a row as it is, or settles it.
kept_or_Settled :
    (now : ℕ) (p r : Payment) → (cancelled_by now p r ≡ r) ⊎ Settled (cancelled_by now p r)
kept_or_Settled now p r =
    elim (Bool-cases (cancellable p.status && (r.id == p.id && is_status r.status p.status))) [
      | inl met ↦ inr (ground arith)
      | inr other ↦ inl (ground arith)
    ]

pub Settled-stays :
    (now : ℕ) (ps : List Payment) (r : Payment) → Settled r → Settled (cancelled_by_all now ps r)
Settled-stays now [] r h = h
Settled-stays now (p ∷ ps) r h = elim (kept_or_Settled now p r) [
  | inl same ↦ Settled-stays now ps (cancelled_by now p r) (ground (arith, same))
  | inr over ↦ Settled-stays now ps (cancelled_by now p r) over
]

abbrev pub Listed : Payment → List Payment → Type 0
Listed r [] = ⊥
Listed r (p ∷ ps) = (p ≡ r) ⊎ Listed r ps

-- A row that was read ends settled.
pub Settled-by_all :
    (now : ℕ) (ps : List Payment) (r : Payment) → Listed r ps → Settled (cancelled_by_all now ps r)
Settled-by_all now [] r h = absurd h
Settled-by_all now (p ∷ ps) r (inl self) =
    Settled-stays now ps (cancelled_by now p r)
      (subst (λ q. Settled (cancelled_by now q r)) (sym self) (Settled-by_self now r))
Settled-by_all now (p ∷ ps) r (inr later) = elim (kept_or_Settled now p r) [
  | inl same ↦
      subst (λ q. Settled (cancelled_by_all now ps q)) (sym same) (Settled-by_all now ps r later)
  | inr over ↦ Settled-stays now ps (cancelled_by now p r) over
]

select-yes :
    (q : Payment → Bool) (x : Payment) (xs : List Payment)
    → q x ≡ true
    → select q (x ∷ xs) ≡ x ∷ select q xs
select-yes q x xs h = ground arith

select-no :
    (q : Payment → Bool) (x : Payment) (xs : List Payment)
    → q x ≡ false
    → select q (x ∷ xs) ≡ select q xs
select-no q x xs h = ground arith

pub Listed-select :
    (q : Payment → Bool) (r : Payment) (rows : List Payment)
    → q r ≡ true
    → Listed r rows
    → Listed r (select q rows)
Listed-select q r [] h m = absurd m
Listed-select q r (x ∷ xs) h (inl self) =
    subst (Listed r) (sym (select-yes q x xs (ground arith))) (inl self)
Listed-select q r (x ∷ xs) h (inr later) = elim (Bool-cases (q x)) [
  | inl met ↦ subst (Listed r) (sym (select-yes q x xs met)) (inr (Listed-select q r xs h later))
  | inr other ↦ subst (Listed r) (sym (select-no q x xs other)) (Listed-select q r xs h later)
]
