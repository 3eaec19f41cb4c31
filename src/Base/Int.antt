-- ===== src/Base/Int.antt =====
-- Signed amounts over the native numbers, under the library's names (its ℤ stands on the unary ℕ).
-- Sums go through the two parts of an integer, which are numbers that `omega` reads.
use Prim.Native.Nat.{ℕ, suc, ◌+◌, ◌-◌, ◌*◌, ◌/◌}
use mathlib.Core.Path.{◌≡◌, ap}
use native.Mathlib.Omega.{arith}
use native.Mathlib.Nat.{mul-add}
use qr_dining.Base.{leb, ltb, if◌then◌else◌}

-- `negsuc n` is -(n + 1).
pub data ℤ : Type 0 where
  pos : ℕ → ℤ
  negsuc : ℕ → ℤ

abbrev pub pos_part : ℤ → ℕ
pos_part (pos n) = n
pos_part (negsuc n) = 0

abbrev pub neg_part : ℤ → ℕ
neg_part (pos n) = 0
neg_part (negsuc n) = suc n

-- a - b, as an integer.
abbrev pub sub_ℕ : ℕ → ℕ → ℤ
sub_ℕ a b = if leb b a then pos (a - b) else negsuc (b - a - 1)

infixl 65 ◌+ℤ◌ ◌-ℤ◌
unfoldable pub ◌+ℤ◌ : ℤ → ℤ → ℤ
a +ℤ b = sub_ℕ (pos_part a + pos_part b) (neg_part a + neg_part b)

unfoldable pub ◌-ℤ◌ : ℤ → ℤ → ℤ
a -ℤ b = sub_ℕ (pos_part a + neg_part b) (neg_part a + pos_part b)

-- n * a, for a count n.
unfoldable pub scale : ℕ → ℤ → ℤ
scale n a = sub_ℕ (n * pos_part a) (n * neg_part a)

-- a * n / d to the nearest integer, halves away from zero, as math.Round has them; d is positive.
unfoldable pub round_div : ℤ → ℕ → ℕ → ℤ
round_div (pos a) n d = pos ((2 * a * n + d) / (2 * d))
round_div (negsuc a) n d = sub_ℕ 0 ((2 * suc a * n + d) / (2 * d))

pub +ℤ_parts :
    (a b : ℤ)
    → pos_part (a +ℤ b) + neg_part a + neg_part b ≡ neg_part (a +ℤ b) + pos_part a + pos_part b
unfolding ◌+ℤ◌
+ℤ_parts a b = ground arith

pub scale_parts :
    (n : ℕ) (a : ℤ) → pos_part (scale n a) + n * neg_part a ≡ neg_part (scale n a) + n * pos_part a
unfolding scale
scale_parts n a = ground arith

pub eq_of_parts : (a b : ℤ) → pos_part a + neg_part b ≡ pos_part b + neg_part a → a ≡ b
eq_of_parts a b h = ground arith

pub ruleset int_laws = (arith, +ℤ_parts, eq_of_parts)

-- A count of a sum, term by term.
pub scale-add : (n : ℕ) (a b : ℤ) → scale n (a +ℤ b) ≡ scale n a +ℤ scale n b
scale-add n a b =
    let parts : n * (pos_part (a +ℤ b) + neg_part a + neg_part b)
        ≡ n * (neg_part (a +ℤ b) + pos_part a + pos_part b) =
      ap (λ (t : ℕ). n * t) (+ℤ_parts a b) in
    eq_of_parts _ _ (
      omega (
        arith,
        parts,
        +ℤ_parts (scale n a) (scale n b),
        scale_parts n a,
        scale_parts n b,
        scale_parts n (a +ℤ b),
        mul-add n (pos_part (a +ℤ b) + neg_part a) (neg_part b),
        mul-add n (pos_part (a +ℤ b)) (neg_part a),
        mul-add n (neg_part (a +ℤ b) + pos_part a) (pos_part b),
        mul-add n (neg_part (a +ℤ b)) (pos_part a),
      ))

pub +ℤ_assoc : (a b c : ℤ) → a +ℤ b +ℤ c ≡ a +ℤ (b +ℤ c)
+ℤ_assoc a b c = omega int_laws

pub +ℤ_zero : (a : ℤ) → a +ℤ pos 0 ≡ a
+ℤ_zero a = omega int_laws

pub zero_+ℤ : (a : ℤ) → pos 0 +ℤ a ≡ a
zero_+ℤ a = omega int_laws
