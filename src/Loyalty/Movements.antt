-- ===== src/Loyalty/Movements.antt =====
-- Sequences of movements of points (backend/internal/services/loyalty.go).
use Prim.Native.String.{String}
use qr_dining.Base.{ℕ, ◌≡◌, true, ◌==◌, some, List, [], ◌∷◌, arith, inl, inr, Option-cases}
use qr_dining.Base.Rows.{find?}
use qr_dining.Store.{
  World, Payment, LoyaltyProgram, Points, with_tx, has_earned, upsert_loyalty_account_for_earn,
  insert_loyalty_transaction, get_loyalty_account_by_customer, get_session_by_id, get_branch_by_id,
  get_loyalty_program,
}
use qr_dining.Loyalty.{
  Gate, compute_earn_points, earn_points, earn_by, accrue_for, accrue, accrue_points_for_payment,
  redeem, adjust,
}
use qr_dining.Loyalty.Ledger.{
  Balanced, by_balance, accrue-BalancedBy, redeem-BalancedBy, adjust-BalancedBy,
}

pub data Movement : Type 0 where
  earns : Payment → Movement
  redeems : ℕ → ℕ → Points → String → ℕ → Movement
  adjusts : ℕ → ℕ → Points → String → ℕ → Movement

abbrev pub move : Gate → Movement → World → World
move gate (earns payment) w = accrue_points_for_payment gate payment w
move gate (redeems branch_id account_id points reason staff_id) w =
    (redeem gate branch_id account_id points reason staff_id w).1
move gate (adjusts branch_id account_id delta reason staff_id) w =
    (adjust gate branch_id account_id delta reason staff_id w).1

abbrev pub move_all : Gate → List Movement → World → World
move_all gate [] w = w
move_all gate (m ∷ ms) w = move_all gate ms (move gate m w)

move-Balanced : (gate : Gate) (m : Movement) (w : World) → Balanced w → Balanced (move gate m w)
unfolding accrue_points_for_payment
move-Balanced gate (earns payment) w h = by_balance (accrue-BalancedBy gate payment) w h
move-Balanced gate (redeems b a p r s) w h = by_balance (redeem-BalancedBy gate b a p r s) w h
move-Balanced gate (adjusts b a p r s) w h = by_balance (adjust-BalancedBy gate b a p r s) w h

-- However points are earned, redeemed and adjusted, and whichever of these fail, each account's balance
-- stays what was earned less what was redeemed, so that no balance is ever overdrawn.
pub move_all-Balanced :
    (gate : Gate) (ms : List Movement) (w : World) → Balanced w → Balanced (move_all gate ms w)
move_all-Balanced gate [] w h = h
move_all-Balanced gate (m ∷ ms) w h =
    move_all-Balanced gate ms (move gate m w) (move-Balanced gate m w h)

earned_already :
    (payment : Payment) (customer_id organization_id points : ℕ) (w : World)
    → has_earned (some payment.id) w ≡ true
    → (with_tx (earn_points payment customer_id organization_id points) w).1 ≡ w
unfolding earn_points insert_loyalty_transaction upsert_loyalty_account_for_earn
earned_already payment customer_id organization_id points w h =
    elim (Option-cases (get_loyalty_account_by_customer customer_id organization_id w)) [
      | inl new ↦ ground arith
      | inr (a, known) ↦ ground arith
    ]

idle-earn_by :
    (payment : Payment) (customer_id organization_id : ℕ) (program : LoyaltyProgram) (w : World)
    → has_earned (some payment.id) w ≡ true
    → (earn_by payment customer_id organization_id program w).1 ≡ w
idle-earn_by payment customer_id organization_id program w h =
    let points =
      compute_earn_points payment.amount program.earn_rate_amount program.earn_rate_points in
    ground (arith, earned_already payment customer_id organization_id points w h)

idle-accrue_for :
    (payment : Payment) (customer_id : ℕ) (w : World)
    → has_earned (some payment.id) w ≡ true
    → (accrue_for payment customer_id w).1 ≡ w
unfolding get_branch_by_id
idle-accrue_for payment customer_id w h =
    elim (Option-cases (find? (λ b. b.id == payment.branch_id) w.branches)) [
      | inl missing ↦ ground arith
      | inr (branch, found) ↦ elim (Option-cases (get_loyalty_program branch.organization_id w)) [
        | inl no_program ↦ ground arith
        | inr (program, known) ↦
            ground (arith, idle-earn_by payment customer_id branch.organization_id program w h)
      ]
    ]

-- The points of a payment are earned once: where they have been earned, hearing of the payment again
-- changes nothing.
pub points_are_earned_once :
    (gate : Gate) (payment : Payment) (w : World)
    → has_earned (some payment.id) w ≡ true
    → accrue_points_for_payment gate payment w ≡ w
unfolding accrue_points_for_payment accrue get_session_by_id get_branch_by_id
points_are_earned_once gate payment w h =
    elim (Option-cases (find? (λ s. s.id == payment.session_id) w.sessions)) [
      | inl missing ↦ ground arith
      | inr (sess, found) ↦ elim (Option-cases sess.customer_id) [
        | inl anonymous ↦ ground arith
        | inr (customer_id, known) ↦ ground (arith, idle-accrue_for payment customer_id w h)
      ]
    ]
