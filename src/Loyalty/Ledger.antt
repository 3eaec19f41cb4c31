-- ===== src/Loyalty/Ledger.antt =====
-- What earning, redeeming and adjusting keep of the accounts (backend/internal/services/loyalty.go).
use Prim.Native.String.{String}
use qr_dining.Base.{
  ℕ, ◌+◌, ◌*◌, ◌≤◌, ◌<◌, ◌≡◌, Bool, true, false, ◌&&◌, ◌==◌, ◌||◌, if◌then◌else◌, leb, Option, none,
  some, List, [], ◌∷◌, arith, inl, inr, Bool-cases, Option-cases,
}
use qr_dining.Base.Rows.{All, update_where, exists}
use native.Mathlib.Nat.{mul-zero, zero-mul, div-add-mod, mod-lt}
use qr_dining.Domain.{Error, loyalty_insufficient_points, unique_violation}
use qr_dining.Store.{
  World, Session, Branch, LoyaltyTransaction, pure, gets, or_fail, fail_if, if_found, ◌>>=◌,
  update_account, get_session_by_id, get_branch_by_id, get_loyalty_account_by_id, Payment,
  LoyaltyAccount, Points, plus, minus, Op, Result, ok, err, with_tx, earn_onto, deduct, credit,
  upsert_loyalty_account_for_earn, insert_loyalty_transaction, deduct_loyalty_points,
  adjust_loyalty_points, get_loyalty_account_by_customer,
}
use qr_dining.Loyalty.{
  Gate, compute_earn_points, earn_points, accrue, redeem_points, redeem, adjust_points, adjust,
}

-- The balance is what was earned less what was redeemed.
abbrev pub Balances : LoyaltyAccount → Type 0
Balances a = a.points_balance + a.lifetime_points_redeemed ≡ a.lifetime_points_earned

abbrev pub Balanced : World → Type 0
Balanced w = All Balances w.loyalty_accounts

pub data BalancedBy {A : Type 0} (m : Op A) : Type 0 where
  balanced : ((w : World) → Balanced w → Balanced (m w).1) → BalancedBy m

pub by_balance :
    {A : Type 0} {m : Op A} → BalancedBy m → (w : World) → Balanced w → Balanced (m w).1
by_balance (balanced h) = h

-- Points are the exact quotient, rounded down.
pub earned_points_floor :
    (amount rate_amount rate_points : ℕ)
    → 0 < rate_amount
    → (compute_earn_points amount rate_amount rate_points * rate_amount ≤ amount * rate_points)
      × (amount * rate_points
          < compute_earn_points amount rate_amount rate_points * rate_amount + rate_amount)
unfolding compute_earn_points
earned_points_floor amount rate_amount rate_points positive =
    elim (Bool-cases (rate_points == 0 || amount == 0 || rate_amount == 0)) [
      | inl nothing ↦ ground (arith, mul-zero amount, zero-mul rate_points)
      | inr some_points ↦
          let parts = div-add-mod (amount * rate_points) rate_amount in
          let rest = mod-lt (amount * rate_points) positive in ground arith
    ]

All-update_where :
    (p : LoyaltyAccount → Bool) (f : LoyaltyAccount → LoyaltyAccount) (rows : List LoyaltyAccount)
    → ((a : LoyaltyAccount) → p a ≡ true → Balances a → Balances (f a))
    → All Balances rows
    → All Balances (update_where p f rows)
All-update_where p f [] h all = tt
All-update_where p f (a ∷ rows) h (here, rest) =
    (ground (arith, h a), All-update_where p f rows h rest)

Balanced-upsert :
    (customer_id organization_id points visit amount : ℕ)
    → BalancedBy (upsert_loyalty_account_for_earn customer_id organization_id points visit amount)
unfolding upsert_loyalty_account_for_earn
Balanced-upsert customer_id organization_id points visit amount = balanced λ w h.
    let found : LoyaltyAccount → Bool =
      λ r. r.customer_id == customer_id && r.organization_id == organization_id in
    let updated =
      All-update_where found (earn_onto points visit amount) w.loyalty_accounts
        (λ a e b. ground arith) h in
    elim (Option-cases (get_loyalty_account_by_customer customer_id organization_id w)) [
      | inl new ↦ ground (arith, h)
      | inr (a, known) ↦ ground (arith, updated)
    ]

Balanced-if :
    {A : Type 0} (b : Bool) (x y : Result A × World)
    → Balanced x.1
    → Balanced y.1
    → Balanced (if b then x else y).1
Balanced-if true x y h h' = h
Balanced-if false x y h h' = h'

Balanced-update :
    (id organization_id : ℕ) (guard : LoyaltyAccount → Bool) (set : LoyaltyAccount → LoyaltyAccount)
    → ((a : LoyaltyAccount) → guard a ≡ true → Balances a → Balances (set a))
    → BalancedBy (update_account id organization_id guard set)
Balanced-update id organization_id guard set same = balanced λ w h.
    let p : LoyaltyAccount → Bool =
      λ a. a.id == id && a.organization_id == organization_id && guard a in
    let rows = update_where p set w.loyalty_accounts in
    Balanced-if (exists p w.loyalty_accounts) (ok tt, record w { loyalty_accounts = rows })
      (err loyalty_insufficient_points, w)
      (All-update_where p set w.loyalty_accounts (λ a e b. same a (ground arith) b) h) h

Balanced-deduct :
    (id organization_id points : ℕ) → BalancedBy (deduct_loyalty_points id organization_id points)
unfolding deduct_loyalty_points
Balanced-deduct id organization_id points =
    Balanced-update id organization_id (λ a. leb points a.points_balance) (deduct points)
      (λ a e b. ground arith)

Balanced-adjust :
    (id organization_id : ℕ) (delta : Points)
    → BalancedBy (adjust_loyalty_points id organization_id delta)
unfolding adjust_loyalty_points
Balanced-adjust id organization_id (plus n) =
    Balanced-update id organization_id (λ a. true) (credit n) (λ a e b. ground arith)
Balanced-adjust id organization_id (minus n) =
    Balanced-update id organization_id (λ a. leb n a.points_balance) (deduct n)
      (λ a e b. ground arith)

Balanced-insert : (t : LoyaltyTransaction) → BalancedBy (insert_loyalty_transaction t)
unfolding insert_loyalty_transaction
Balanced-insert t = balanced λ w h. Balanced-if _ (err unique_violation, w) (ok tt, _) h h

module _ {A : Type 0} where
  Balanced-pure : (a : A) → BalancedBy (pure a)
  Balanced-pure a = balanced λ w h. h

  Balanced-gets : (f : World → A) → BalancedBy (gets f)
  Balanced-gets f = balanced λ w h. h

  Balanced-or_fail : (o : Option A) (e : Error) → BalancedBy (or_fail o e)
  Balanced-or_fail none e = balanced λ w h. h
  Balanced-or_fail (some a) e = balanced λ w h. h

  Balanced-choice :
      (b : Bool) (m k : Op A) → BalancedBy m → BalancedBy k → BalancedBy (if b then m else k)
  Balanced-choice true m k h h' = h
  Balanced-choice false m k h h' = h'

  Balanced-tx : (m : Op A) → BalancedBy m → BalancedBy (with_tx m)
  Balanced-tx m (balanced h) = balanced λ w b. go w (m w) b (h w b)
    where
      go :
          (w : World) (r : Result A × World)
          → Balanced w
          → Balanced r.1
          → Balanced (with_tx (λ _. r) w).1
      go w (ok a, w') b b' = b'
      go w (err e, w') b b' = b

module _ {A B : Type 0} where
  Balanced-if_found :
      (o : Option A) (f : A → Op B) (m : Op B)
      → ((a : A) → BalancedBy (f a))
      → BalancedBy m
      → BalancedBy (if_found o f m)
  Balanced-if_found none f m h h' = h'
  Balanced-if_found (some a) f m h h' = h a

  Balanced-bind :
      (m : Op A) (f : A → Op B) → BalancedBy m → ((a : A) → BalancedBy (f a)) → BalancedBy (m >>= f)
  Balanced-bind m f (balanced h) k = balanced λ w b. go w (m w) (h w b)
    where
      go : (w : World) (r : Result A × World) → Balanced r.1 → Balanced (((λ _. r) >>= f) w).1
      go w (ok a, w') b = by_balance (k a) w' b
      go w (err e, w') b = b

Balanced-fail_if : (b : Bool) (e : Error) → BalancedBy (fail_if b e)
Balanced-fail_if true e = balanced λ w h. h
Balanced-fail_if false e = balanced λ w h. h

Balanced-session : (id : ℕ) → BalancedBy (get_session_by_id id)
unfolding get_session_by_id
Balanced-session id = balanced λ w. by_balance (Balanced-or_fail {A = Session} _ _) w

Balanced-branch : (id : ℕ) → BalancedBy (get_branch_by_id id)
unfolding get_branch_by_id
Balanced-branch id = balanced λ w. by_balance (Balanced-or_fail {A = Branch} _ _) w

Balanced-account :
    (id organization_id : ℕ) → BalancedBy (get_loyalty_account_by_id id organization_id)
Balanced-account id organization_id =
    balanced λ w. by_balance (Balanced-or_fail {A = LoyaltyAccount} _ _) w

ruleset balance_rules = (
  Balanced-pure, Balanced-gets, Balanced-choice, Balanced-if_found, Balanced-tx, Balanced-bind,
  Balanced-fail_if, Balanced-session, Balanced-branch, Balanced-account, Balanced-insert,
  Balanced-adjust, Balanced-deduct, Balanced-upsert,
)

pub accrue-BalancedBy : (gate : Gate) (payment : Payment) → BalancedBy (accrue gate payment)
unfolding accrue earn_points
accrue-BalancedBy gate payment = search balance_rules depth 60 fits 4000

pub redeem-BalancedBy :
    (gate : Gate) (branch_id account_id : ℕ) (points : Points) (reason : String) (staff_id : ℕ)
    → BalancedBy (redeem gate branch_id account_id points reason staff_id)
unfolding redeem redeem_points
redeem-BalancedBy gate branch_id account_id points reason staff_id =
    search balance_rules depth 60 fits 4000

pub adjust-BalancedBy :
    (gate : Gate) (branch_id account_id : ℕ) (delta : Points) (reason : String) (staff_id : ℕ)
    → BalancedBy (adjust gate branch_id account_id delta reason staff_id)
unfolding adjust adjust_points
adjust-BalancedBy gate branch_id account_id delta reason staff_id =
    search balance_rules depth 60 fits 4000
