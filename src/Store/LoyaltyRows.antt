-- ===== src/Store/LoyaltyRows.antt =====
-- Loyalty points: backend/internal/repository/loyalty.go with backend/sql/queries/loyalty.sql. Points are
-- BIGINT in the database, which refuses what does not fit; here they are unbounded.
use qr_dining.Base.{
  ℕ, ◌+◌, ◌-◌, ⊤, Bool, true, false, ◌&&◌, Option, none, some, ◌∷◌, ◌==◌, leb, if◌then◌else◌,
}
use qr_dining.Base.Rows.{find?, update_where, exists, select, length}
use qr_dining.Domain.{loyalty_account_not_found, loyalty_insufficient_points, unique_violation}
use qr_dining.Store.Model.{
  World, LoyaltyProgram, LoyaltyAccount, LoyaltyTransaction, LoyaltyTxnType, Points, plus, minus,
}
use qr_dining.Store.Monad.{Op, ok, err, or_fail}

abbrev pub get_loyalty_program : ℕ → World → Option LoyaltyProgram
get_loyalty_program organization_id w =
    find? (λ p. p.organization_id == organization_id) w.loyalty_programs

abbrev pub get_loyalty_account_by_customer : ℕ → ℕ → World → Option LoyaltyAccount
get_loyalty_account_by_customer customer_id organization_id w =
    find? (λ a. a.customer_id == customer_id && a.organization_id == organization_id)
      w.loyalty_accounts

-- pgx.ErrNoRows as both callers translate it.
abbrev pub get_loyalty_account_by_id : ℕ → ℕ → Op LoyaltyAccount
get_loyalty_account_by_id id organization_id w =
    or_fail (find? (λ a. a.id == id && a.organization_id == organization_id) w.loyalty_accounts)
      loyalty_account_not_found w

abbrev pub is_earn : LoyaltyTxnType → Bool
is_earn LoyaltyTxnType.earn = true
is_earn _ = false

abbrev same_id : Option ℕ → Option ℕ → Bool
same_id (some a) (some b) = a == b
same_id _ _ = false

unfoldable pub count_earn_transactions_for_account_session : ℕ → ℕ → World → ℕ
count_earn_transactions_for_account_session account_id session_id w = length (
    select
      (λ t.
        t.account_id == account_id && same_id t.session_id (some session_id) && is_earn t.txn_type)
      w.loyalty_transactions)

abbrev pub earn_onto : ℕ → ℕ → ℕ → LoyaltyAccount → LoyaltyAccount
earn_onto points visit amount a = record a {
  points_balance = a.points_balance + points;
  lifetime_points_earned = a.lifetime_points_earned + points;
  visit_count = a.visit_count + visit;
  lifetime_spend = a.lifetime_spend + amount;
}

-- INSERT … ON CONFLICT (customer_id, organization_id) DO UPDATE, giving the id of the row.
unfoldable pub upsert_loyalty_account_for_earn : ℕ → ℕ → ℕ → ℕ → ℕ → Op ℕ
upsert_loyalty_account_for_earn customer_id organization_id points visit amount w =
    elim (get_loyalty_account_by_customer customer_id organization_id w) [
      | some a ↦ (
        ok a.id,
        record w {
          loyalty_accounts =
              update_where
                (λ r. r.customer_id == customer_id && r.organization_id == organization_id)
                (earn_onto points visit amount) w.loyalty_accounts;
        },
      )
      | none ↦ (
        ok w.next_id,
        record w {
          loyalty_accounts =
              record {
                id = w.next_id;
                customer_id = customer_id;
                organization_id = organization_id;
                points_balance = points;
                lifetime_points_earned = points;
                lifetime_points_redeemed = 0;
                visit_count = visit;
                lifetime_spend = amount;
              }
              ∷ w.loyalty_accounts;
          next_id = w.next_id + 1;
        },
      )
    ]

-- Whether the points of a payment have been earned.
abbrev pub has_earned : Option ℕ → World → Bool
has_earned payment_id w =
    exists (λ t. is_earn t.txn_type && same_id t.payment_id payment_id) w.loyalty_transactions

-- The unique index idx_loyalty_txn_earn_payment refuses a second earn for a payment.
unfoldable pub insert_loyalty_transaction : LoyaltyTransaction → Op ⊤
insert_loyalty_transaction t w =
    if is_earn t.txn_type && has_earned t.payment_id w
    then (err unique_violation, w)
    else (ok tt, record w { loyalty_transactions = t ∷ w.loyalty_transactions })

-- `loyalty_insufficient_points` is pgx.ErrNoRows as both callers translate it.
abbrev pub update_account :
    ℕ → ℕ → (LoyaltyAccount → Bool) → (LoyaltyAccount → LoyaltyAccount) → Op ⊤
update_account id organization_id guard set w =
    let p : LoyaltyAccount → Bool =
      λ a. a.id == id && a.organization_id == organization_id && guard a in
    if exists p w.loyalty_accounts
    then (ok tt, record w { loyalty_accounts = update_where p set w.loyalty_accounts })
    else (err loyalty_insufficient_points, w)

abbrev pub deduct : ℕ → LoyaltyAccount → LoyaltyAccount
deduct points a = record a {
  points_balance = a.points_balance - points;
  lifetime_points_redeemed = a.lifetime_points_redeemed + points;
}

abbrev pub credit : ℕ → LoyaltyAccount → LoyaltyAccount
credit points a = record a {
  points_balance = a.points_balance + points;
  lifetime_points_earned = a.lifetime_points_earned + points;
}

unfoldable pub deduct_loyalty_points : ℕ → ℕ → ℕ → Op ⊤
deduct_loyalty_points id organization_id points =
    update_account id organization_id (λ a. leb points a.points_balance) (deduct points)

unfoldable pub adjust_loyalty_points : ℕ → ℕ → Points → Op ⊤
adjust_loyalty_points id organization_id (plus n) =
    update_account id organization_id (λ a. true) (credit n)
adjust_loyalty_points id organization_id (minus n) =
    update_account id organization_id (λ a. leb n a.points_balance) (deduct n)
