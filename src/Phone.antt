-- ===== src/Phone.antt =====
-- Phone numbers, as lists of code points: normalizePhone of services/customer.go,
-- normalizeOptionalPhone of services/session.go and promoNormalizePhone of services/promo.go.
pub mod Canonical
use qr_dining.Base.{
  ℕ, Bool, true, false, ◌&&◌, ◌||◌, Option, none, some, List, [], ◌∷◌, ◌++◌, leb, ltb, ◌==◌,
  if◌then◌else◌,
}
use qr_dining.Base.Rows.{select, length, all}

abbrev pub is_digit : ℕ → Bool
is_digit c = leb b'0' c && leb c b'9'

-- Both `nonDigit.ReplaceAllString(raw, "")` and the loop of promoNormalizePhone.
abbrev pub digits_of : List ℕ → List ℕ
digits_of = select is_digit

abbrev pub has_plus_prefix : List ℕ → Bool
has_plus_prefix [] = false
has_plus_prefix (c ∷ _) = c == b'+'

abbrev starts_at_six : List ℕ → Bool
starts_at_six [] = false
starts_at_six (c ∷ _) = leb b'6' c

-- `none` is ErrInvalidPhone.
unfoldable pub normalize_phone : List ℕ → Option (List ℕ)
normalize_phone raw =
    let digits : List ℕ = digits_of raw in
    if has_plus_prefix raw
    then if leb 10 (length digits) && leb (length digits) 15 then some (b'+' ∷ digits) else none
    else if length digits == 10 && starts_at_six digits
    then some (b'+' ∷ b'9' ∷ b'1' ∷ digits)
    else none

-- unicode.IsSpace, by which strings.TrimSpace cuts.
abbrev is_space : ℕ → Bool
is_space c =
    leb 9 c && leb c 13
    || c == 32
    || c == 0x85
    || c == 0xa0
    || c == 0x1680
    || leb 0x2000 c && leb c 0x200a
    || c == 0x2028
    || c == 0x2029
    || c == 0x202f
    || c == 0x205f
    || c == 0x3000

unfoldable pub normalize_optional_phone : List ℕ → Option (List ℕ)
unfolding normalize_phone
normalize_optional_phone raw = if all is_space raw then some [] else normalize_phone raw

abbrev with_plus : List ℕ → List ℕ
with_plus [] = []
with_plus (d ∷ ds) = b'+' ∷ d ∷ ds

unfoldable pub promo_normalize_phone : List ℕ → List ℕ
promo_normalize_phone phone = with_plus (digits_of phone)
