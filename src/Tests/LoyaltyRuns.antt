-- ===== src/Tests/LoyaltyRuns.antt =====
-- Loyalty points at concrete inputs.
use qr_dining.Base.{◌≡◌, refl, true, some, none, [], ◌∷◌}
use qr_dining.Store.{
  World, LoyaltyAccount, LoyaltyTransaction, LoyaltyTxnType, LoyaltyProgram, plus, minus,
}
use qr_dining.Loyalty.{Gate, accrue_points_for_payment}
use qr_dining.Loyalty.Ledger.{Balanced}
use qr_dining.Loyalty.Movements.{
  move_all, earns, redeems, adjusts, move_all-Balanced, points_are_earned_once,
}
use qr_dining.Tests.Fixtures.{world}
use qr_dining.Tests.PaymentRuns.{bill}

abbrev open_to_all : Gate
open_to_all = λ branch entitlement. true

abbrev wallet : LoyaltyAccount
wallet = record {
  id = 900;
  customer_id = 77;
  organization_id = 1;
  points_balance = 40;
  lifetime_points_earned = 50;
  lifetime_points_redeemed = 10;
  visit_count = 3;
  lifetime_spend = 500000;
}

abbrev program : LoyaltyProgram
program = record {
  organization_id = 1;
  is_active = true;
  earn_rate_points = 1;
  earn_rate_amount = 10000;
}

abbrev earned : LoyaltyTransaction
earned = record {
  account_id = 900;
  txn_type = LoyaltyTxnType.earn;
  points = plus 4;
  amount = 45000;
  payment_id = some 300;
  session_id = some 100;
  staff_id = none;
  reason = "";
}

abbrev members : World
members = record world {
  loyalty_programs = program ∷ [];
  loyalty_accounts = wallet ∷ [];
  loyalty_transactions = earned ∷ [];
}

points_are_earned_once_example : accrue_points_for_payment open_to_all bill members ≡ members
points_are_earned_once_example = points_are_earned_once open_to_all bill members refl

Balanced-before : Balanced members
Balanced-before = (refl, tt)

move_all-Balanced_example : Balanced (
    move_all open_to_all
      (redeems 10 900 (plus 30) "coffee" 7 ∷ adjusts 10 900 (minus 20) "error" 7 ∷ earns bill ∷ [])
      members)
move_all-Balanced_example =
    move_all-Balanced open_to_all
      (redeems 10 900 (plus 30) "coffee" 7 ∷ adjusts 10 900 (minus 20) "error" 7 ∷ earns bill ∷ [])
      members Balanced-before
