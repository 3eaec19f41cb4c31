-- ===== src/Loyalty.antt =====
-- backend/internal/services/loyalty.go: earning, redeeming and adjusting points. `gate` stands for
-- FeatureGate.BranchEnabled with the loyalty flag, by branch and entitlement.
pub mod Ledger
pub mod Movements
use Prim.Native.String.{String}
use text.Mathlib.Text.{◌==◌ as str_eq}
use qr_dining.Base.{
  ℕ, ◌*◌, ◌/◌, ⊤, Bool, true, false, ◌&&◌, ◌||◌, not, Option, none, some, ◌==◌, ltb, if◌then◌else◌,
}
use qr_dining.Domain.{loyalty_disabled, invalid_loyalty_request}
use qr_dining.Store.{
  World, Payment, LoyaltyProgram, LoyaltyAccount, LoyaltyTransaction, LoyaltyTxnType, Points, plus,
  minus, Op, pure, fail_if, gets, if_found, with_tx, ◌>>=◌, ◌>>◌, get_session_by_id,
  get_branch_by_id, get_loyalty_program, get_loyalty_account_by_customer, get_loyalty_account_by_id,
  count_earn_transactions_for_account_session, upsert_loyalty_account_for_earn,
  insert_loyalty_transaction, deduct_loyalty_points, adjust_loyalty_points,
}

abbrev pub Gate : Type 0
Gate = ℕ → String → Bool

-- floor(amount * ratePoints / rateAmount), where it fits an int64; no rate, no points.
unfoldable pub compute_earn_points : ℕ → ℕ → ℕ → ℕ
compute_earn_points amount rate_amount rate_points =
    if rate_points == 0 || amount == 0 || rate_amount == 0
    then 0
    else amount * rate_points / rate_amount

abbrev visit_of : ℕ → Option LoyaltyAccount → World → ℕ
visit_of session_id none w = 1
visit_of session_id (some a) w =
    if ltb 0 (count_earn_transactions_for_account_session a.id session_id w) then 0 else 1

-- The transaction of accrue.
unfoldable pub earn_points : Payment → ℕ → ℕ → ℕ → Op ⊤
earn_points payment customer_id organization_id points = do
  existing ← gets (get_loyalty_account_by_customer customer_id organization_id)
  visit ← gets (visit_of payment.session_id existing)
  account_id ←
      upsert_loyalty_account_for_earn customer_id organization_id points visit payment.amount
  insert_loyalty_transaction (record {
    account_id = account_id;
    txn_type = LoyaltyTxnType.earn;
    points = plus points;
    amount = payment.amount;
    payment_id = some payment.id;
    session_id = some payment.session_id;
    staff_id = none;
    reason = "";
  })

abbrev pub earn_by : Payment → ℕ → ℕ → LoyaltyProgram → Op ⊤
earn_by payment customer_id organization_id program =
    let points =
      compute_earn_points payment.amount program.earn_rate_amount program.earn_rate_points in
    if not program.is_active || points == 0
    then pure tt
    else with_tx (earn_points payment customer_id organization_id points)

abbrev pub accrue_for : Payment → ℕ → Op ⊤
accrue_for payment customer_id = do
  branch ← get_branch_by_id payment.branch_id
  program ← gets (get_loyalty_program branch.organization_id)
  if_found program (earn_by payment customer_id branch.organization_id) (pure tt)

unfoldable pub accrue : Gate → Payment → Op ⊤
accrue gate payment = if not (gate payment.branch_id "loyalty.enabled") then pure tt else do
  sess ← get_session_by_id payment.session_id
  if_found sess.customer_id (accrue_for payment) (pure tt)

-- AccruePointsForPayment: no error leaves it.
unfoldable pub accrue_points_for_payment : Gate → Payment → World → World
accrue_points_for_payment gate payment w = (accrue gate payment w).1

abbrev pub check_branch_gate : Gate → ℕ → String → Op ℕ
check_branch_gate gate branch_id entitlement = do
  branch ← get_branch_by_id branch_id
  fail_if (not (gate branch_id entitlement)) loyalty_disabled
  pure branch.organization_id

abbrev is_positive : Points → Bool
is_positive (plus n) = ltb 0 n
is_positive (minus n) = false

abbrev is_zero : Points → Bool
is_zero (plus n) = n == 0
is_zero (minus n) = n == 0

abbrev amount_of : Points → ℕ
amount_of (plus n) = n
amount_of (minus n) = n

abbrev staff_transaction : ℕ → LoyaltyTxnType → Points → ℕ → String → LoyaltyTransaction
staff_transaction account_id txn_type points staff_id reason = record {
  account_id = account_id;
  txn_type = txn_type;
  points = points;
  amount = 0;
  payment_id = none;
  session_id = none;
  staff_id = some staff_id;
  reason = reason;
}

unfoldable pub redeem_points : ℕ → ℕ → ℕ → String → ℕ → Op ⊤
redeem_points account_id organization_id points reason staff_id = do
  get_loyalty_account_by_id account_id organization_id
  deduct_loyalty_points account_id organization_id points
  insert_loyalty_transaction
      (staff_transaction account_id LoyaltyTxnType.redeem (minus points) staff_id reason)

unfoldable pub redeem : Gate → ℕ → ℕ → Points → String → ℕ → Op ⊤
redeem gate branch_id account_id points reason staff_id = do
  organization_id ← check_branch_gate gate branch_id "loyalty.enabled"
  check_branch_gate gate branch_id "loyalty.redeem"
  fail_if (not (is_positive points)) invalid_loyalty_request
  with_tx (redeem_points account_id organization_id (amount_of points) reason staff_id)

unfoldable pub adjust_points : ℕ → ℕ → Points → String → ℕ → Op ⊤
adjust_points account_id organization_id delta reason staff_id = do
  get_loyalty_account_by_id account_id organization_id
  adjust_loyalty_points account_id organization_id delta
  insert_loyalty_transaction
      (staff_transaction account_id LoyaltyTxnType.adjustment delta staff_id reason)

unfoldable pub adjust : Gate → ℕ → ℕ → Points → String → ℕ → Op ⊤
adjust gate branch_id account_id delta reason staff_id = do
  organization_id ← check_branch_gate gate branch_id "loyalty.enabled"
  check_branch_gate gate branch_id "loyalty.manual_adjustment"
  fail_if (is_zero delta || str_eq reason "") invalid_loyalty_request
  with_tx (adjust_points account_id organization_id delta reason staff_id)
