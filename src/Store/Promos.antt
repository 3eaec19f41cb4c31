-- ===== src/Store/Promos.antt =====
-- Promo codes: backend/internal/repository/promo.go with the SQL text of
-- backend/internal/db/sqlc/promos.sql.go. A comparison with NULL keeps a row out.
use Prim.Native.String.{String}
use text.Mathlib.Text.{◌==◌ as str_eq}
use qr_dining.Base.{
  ℕ, ◌+◌, ⊤, Bool, true, false, ◌&&◌, Option, none, some, List, ◌∷◌, ◌==◌, leb, if◌then◌else◌,
  bytes_equal,
}
use qr_dining.Base.Rows.{find?, update_where, select, length, exists}
use qr_dining.Domain.{promo_not_found, unique_violation}
use qr_dining.Store.Model.{World, Promo, PromoRedemption, Config}
use qr_dining.Store.Monad.{Op, ok, err, or_fail, modify}

abbrev between : Option ℕ → Option ℕ → Option ℕ → Bool
between (some start) (some now) (some end) = leb start now && leb now end
between _ _ _ = false

-- time_window_start IS NULL OR (time_window_start <= t AND t <= time_window_end)
abbrev within_window : Config → Promo → World → Bool
within_window cfg p w = elim p.time_window_start [
  | none ↦ true
  | some start ↦ elim (find? (λ b. b.id == p.branch_id) w.branches) [
    | none ↦ false
    | some b ↦ between (some start) (some (cfg.time_of_day b.timezone w.now)) p.time_window_end
  ]
]

abbrev pub find_promo : Config → ℕ → String → World → Option Promo
find_promo cfg branch_id code w =
    find?
      (λ (p : Promo).
        p.branch_id == branch_id
        && str_eq (cfg.lower p.code) (cfg.lower code)
        && p.is_active
        && leb p.valid_from w.now
        && leb w.now p.valid_until
        && within_window cfg p w)
      w.promos

unfoldable pub get_promo_by_code_for_update : Config → ℕ → String → Op Promo
get_promo_by_code_for_update cfg branch_id code w =
    or_fail (find_promo cfg branch_id code w) promo_not_found w

abbrev is_phone : Option (List ℕ) → List ℕ → Bool
is_phone none phone = false
is_phone (some p) phone = bytes_equal p phone

unfoldable pub count_promo_redemptions_by_phone : ℕ → List ℕ → World → ℕ
count_promo_redemptions_by_phone promo_id phone w =
    length (select (λ r. r.promo_id == promo_id && is_phone r.phone phone) w.promo_redemptions)

-- The unique index idx_redemptions_promo_payment refuses a second row for a payment.
unfoldable pub create_promo_redemption_for_payment : ℕ → ℕ → Option (List ℕ) → Op ⊤
create_promo_redemption_for_payment promo_id payment_id phone w =
    let row : PromoRedemption = record {
      promo_id = promo_id;
      payment_id = payment_id;
      phone = phone;
    } in
    if exists (λ r. r.promo_id == promo_id && r.payment_id == payment_id) w.promo_redemptions
    then (err unique_violation, w)
    else (ok tt, record w { promo_redemptions = row ∷ w.promo_redemptions })

unfoldable pub increment_promo_redemption_count : ℕ → Op ⊤
increment_promo_redemption_count promo_id = modify λ w. record w {
  promos =
      update_where (λ p. p.id == promo_id) (λ p. record p { redeemed_count = p.redeemed_count + 1 })
        w.promos;
}
