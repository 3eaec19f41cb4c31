-- ===== src/Promo/Validation.antt =====
-- When a promo applies (ValidatePromo of backend/internal/services/promo.go).
use qr_dining.Base.{ℕ, ◌≤◌, ◌<◌, ◌≡◌, inl, inr, Option, none, some, List, arith, Option-cases, refl}
use qr_dining.Domain.{Error, promo_not_found}
use qr_dining.Store.{
  World, Config, Promo, Op, ok, or_fail, find_promo, ◌>>=◌, get_promo_by_code_for_update,
  count_promo_redemptions_by_phone,
}
use qr_dining.Phone.{promo_normalize_phone}
use qr_dining.Promo.{
  ValidatePromoRequest, ValidatePromoResult, validate_promo, check_promo, compute_discount,
}

-- The promo of a request, as the query finds it.
abbrev pub promo_of : Config → ValidatePromoRequest → World → Option Promo
promo_of cfg req w = find_promo cfg req.branch_id req.code w

-- What a promo that applies has passed: the bill reaches the minimum, the global cap is not reached,
-- and with a cap per phone there is a phone that has not used it up.
abbrev pub Applies : Promo → ValidatePromoRequest → Option (List ℕ) → World → Type 0
Applies promo req phone w =
    (promo.min_order_amount ≤ req.order_total)
    × ((cap : ℕ) → promo.max_uses ≡ some cap → promo.redeemed_count < cap)
    × (0 < promo.uses_per_phone
        → (number : List ℕ) × (phone ≡ some number)
          × (count_promo_redemptions_by_phone promo.id number w < promo.uses_per_phone))

-- The checks pass only a promo that applies.
passed_promo :
    (cfg : Config) (req : ValidatePromoRequest) (promo : Promo) (w : World)
    (r : ValidatePromoResult)
    → (check_promo cfg req promo w).0 ≡ ok r
    → (r.promo_id ≡ promo.id)
      × (r.discount_amount ≡ compute_discount cfg promo req.order_total)
      × Applies promo req r.normalized_phone w
passed_promo cfg req promo w r h = (
  ground arith,
  ground arith,
  (
    ground arith,
    λ cap e. ground arith,
    λ capped. elim (Option-cases req.phone) [
      | inl none_given ↦ absurd (ground arith)
      | inr (raw, given) ↦ (promo_normalize_phone raw, ground arith, ground arith)
    ],
  ),
)

-- A chain that starts with a lookup succeeds only if the lookup does.
looked_up :
    {A B : Type 0} (o : Option A) (e : Error) (k : A → Op B) (w : World) (b : B)
    → ((or_fail o e >>= k) w).0 ≡ ok b
    → (a : A) × (o ≡ some a) × ((k a w).0 ≡ ok b)
looked_up none e k w b h = absurd (ground arith)
looked_up (some a) e k w b h = (a, refl, h)

-- A promo is accepted only if it is found and applies, for the discount that is computed from it.
pub accepted_promo-Applies :
    (cfg : Config) (req : ValidatePromoRequest) (w : World) (r : ValidatePromoResult)
    → (validate_promo cfg req w).0 ≡ ok r
    → (promo : Promo) × (promo_of cfg req w ≡ some promo)
      × (r.promo_id ≡ promo.id)
      × (r.discount_amount ≡ compute_discount cfg promo req.order_total)
      × Applies promo req r.normalized_phone w
unfolding validate_promo get_promo_by_code_for_update
accepted_promo-Applies cfg req w r h =
    let (promo, found, passed) =
      looked_up (promo_of cfg req w) promo_not_found (check_promo cfg req) w r h in
    let (right, discount, fits) = passed_promo cfg req promo w r passed in
    (promo, found, right, discount, fits)
