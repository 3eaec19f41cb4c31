-- ===== src/Promo/Discount.antt =====
-- The discount of a promo (computeDiscount of backend/internal/services/promo.go).
use qr_dining.Base.{ℕ, ◌+◌, ◌*◌, ◌≤◌, ◌<◌, ◌≡◌}
use qr_dining.Store.{Promo, PromoType}

-- A percentage of at most a hundred, in hundredths of a percent.
abbrev pub IsSane : Promo → Type 0
IsSane promo = promo.promo_type ≡ PromoType.percentage → promo.value ≤ 10000

-- A product rounded to the cent is off by less than one cent: float64 keeps 53 bits, so that the error
-- before the rounding is far below half a cent for every amount that the columns can hold.
abbrev pub RoundsToCent : (ℕ → ℕ → ℕ) → Type 0
RoundsToCent f =
    (total value : ℕ)
    → (f total value * 10000 < total * value + 10000)
      × (total * value < f total value * 10000 + 10000)
