-- ===== src/Phone/Canonical.antt =====
-- The canonical forms of a phone number (services/customer.go, services/promo.go): reformatting a number
-- gives no second form of it.
use qr_dining.Base.{
  ℕ, ◌≡◌, refl, ◌≤◌, false, some, List, [], ◌∷◌, ◌++◌, arith, subst, Bool-cases, inl, inr,
}
use qr_dining.Base.Rows.{length}
use qr_dining.Phone.{is_digit, has_plus_prefix, digits_of, normalize_phone, promo_normalize_phone}

digits_of-digits_of : (xs : List ℕ) → digits_of (digits_of xs) ≡ digits_of xs
digits_of-digits_of [] = refl
digits_of-digits_of (x ∷ xs) = ground (arith, digits_of-digits_of xs)

digits_of-insert :
    (xs ys : List ℕ) (c : ℕ) → is_digit c ≡ false → digits_of (xs ++ c ∷ ys) ≡ digits_of (xs ++ ys)
digits_of-insert [] ys c h = ground arith
digits_of-insert (x ∷ xs) ys c h = ground (arith, digits_of-insert xs ys c h)

-- A character that is no digit, put anywhere into a number, does not change the form by which the cap
-- per phone is counted.
pub reformatting_keeps_the_phone :
    (xs ys : List ℕ) (c : ℕ)
    → is_digit c ≡ false
    → promo_normalize_phone (xs ++ c ∷ ys) ≡ promo_normalize_phone (xs ++ ys)
unfolding promo_normalize_phone
reformatting_keeps_the_phone xs ys c h = rw (digits_of-insert xs ys c h) refl

-- Ten to fifteen digits behind a plus.
canonical_lem :
    (ds : List ℕ)
    → digits_of ds ≡ ds
    → 10 ≤ length ds
    → length ds ≤ 15
    → (normalize_phone (b'+' ∷ ds) ≡ some (b'+' ∷ ds))
      × (promo_normalize_phone (b'+' ∷ ds) ≡ b'+' ∷ ds)
unfolding normalize_phone promo_normalize_phone
canonical_lem [] same lo hi = absurd (omega arith)
canonical_lem (d ∷ ds) same lo hi = (ground arith, ground arith)

abbrev Canonical : List ℕ → Type 0
Canonical phone = (normalize_phone phone ≡ some phone) × (promo_normalize_phone phone ≡ phone)

-- What normalizePhone accepts it gives back unchanged when it is asked again, and the promo service
-- counts it under the same form.
pub normalize_phone_canonical :
    (raw phone : List ℕ)
    → normalize_phone raw ≡ some phone
    → (normalize_phone phone ≡ some phone) × (promo_normalize_phone phone ≡ phone)
unfolding normalize_phone
normalize_phone_canonical raw phone h =
    let again = digits_of-digits_of raw in
    elim (Bool-cases (has_plus_prefix raw)) [
      | inl plus ↦
          let whole : b'+' ∷ digits_of raw ≡ phone = ground arith in
          subst Canonical whole (canonical_lem (digits_of raw) again (ground arith) (ground arith))
      | inr local ↦
          let whole : b'+' ∷ b'9' ∷ b'1' ∷ digits_of raw ≡ phone = ground arith in
          subst Canonical whole (
            canonical_lem (b'9' ∷ b'1' ∷ digits_of raw) (ground arith) (ground arith)
              (ground arith))
    ]
