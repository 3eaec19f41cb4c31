-- ===== src/Promo.antt =====
-- backend/internal/services/promo.go: whether a promo code applies to a bill, and the discount. Money
-- is in hundredths, and so is the value of a percentage; the float64 product that a percentage takes
-- is a field of `Config`.
pub mod Discount
pub mod Validation
use Prim.Native.String.{String}
use qr_dining.Base.{
  ℕ, ◌+◌, ◌*◌, ◌/◌, ⊤, Bool, true, false, ◌&&◌, not, Option, none, some, List, leb, ltb, is_some,
  if◌then◌else◌,
}
use qr_dining.Domain.{min_order_not_met, promo_exhausted, promo_already_used, promo_phone_required}
use qr_dining.Store.{
  World, Config, Promo, PromoType, Op, pure, gets, fail_if, ◌>>=◌, ◌>>◌,
  get_promo_by_code_for_update, count_promo_redemptions_by_phone,
}
use qr_dining.Phone.{promo_normalize_phone}

pub record ValidatePromoRequest : Type 0 where
  pub branch_id : ℕ
  pub code : String
  pub order_total : ℕ
  pub phone : Option (List ℕ)

pub record ValidatePromoResult : Type 0 where
  pub promo_id : ℕ
  pub discount_amount : ℕ
  pub normalized_phone : Option (List ℕ)

-- Both branches of a flat amount are on the cents, which round2 keeps.
unfoldable pub compute_discount : Config → Promo → ℕ → ℕ
compute_discount cfg promo order_total = elim promo.promo_type [
  | PromoType.flat_amount ↦ if ltb order_total promo.value then order_total else promo.value
  | PromoType.percentage ↦ cfg.percent_of order_total promo.value
]

abbrev normalized : Option (List ℕ) → Option (List ℕ)
normalized none = none
normalized (some phone) = some (promo_normalize_phone phone)

abbrev pub exhausted : Promo → Bool
exhausted promo = elim promo.max_uses [ none ↦ false | some cap ↦ leb cap promo.redeemed_count ]

-- The cap per phone, for a phone in canonical form.
abbrev pub used_up : Promo → Option (List ℕ) → World → Bool
used_up promo none w = false
used_up promo (some phone) w =
    ltb 0 promo.uses_per_phone
    && leb promo.uses_per_phone (count_promo_redemptions_by_phone promo.id phone w)

-- The checks of a promo that was found, in the order of the code.
abbrev pub check_promo : Config → ValidatePromoRequest → Promo → Op ValidatePromoResult
check_promo cfg req promo = do
  let phone : Option (List ℕ) = normalized req.phone
  fail_if (ltb 0 promo.uses_per_phone && not (is_some phone)) promo_phone_required
  fail_if (ltb req.order_total promo.min_order_amount) min_order_not_met
  fail_if (exhausted promo) promo_exhausted
  used ← gets (used_up promo phone)
  fail_if used promo_already_used
  pure (record {
    promo_id = promo.id;
    discount_amount = compute_discount cfg promo req.order_total;
    normalized_phone = phone;
  })

unfoldable pub validate_promo : Config → ValidatePromoRequest → Op ValidatePromoResult
validate_promo cfg req =
    get_promo_by_code_for_update cfg req.branch_id req.code >>= check_promo cfg req
