-- ===== src/Prelude/Int.antt =====
-- Signed integers over the native numbers, under the library's names.
use Prim.Native.Nat.{ℕ, suc, ◌+◌, ◌-◌, ◌*◌, ◌/◌, ◌≤◌, ◌<◌}
use mathlib.Core.Path.{◌≡◌, ap}
use mathlib.Core.Bool.{Bool, true, false}
use native.Mathlib.Omega.{arith}
use volatility_services.Prelude.Tests.{ltb, leb, if◌then◌else◌}

-- `negsuc n` is -(n + 1).
pub data ℤ : Type 0 where
  pos : ℕ → ℤ
  negsuc : ℕ → ℤ

abbrev pub pos_part : ℤ → ℕ
pos_part (pos n) = n
pos_part (negsuc _) = 0

abbrev pub neg_part : ℤ → ℕ
neg_part (pos _) = 0
neg_part (negsuc n) = suc n

-- a - b, as an integer.
abbrev pub sub_ℕ : ℕ → ℕ → ℤ
sub_ℕ a b = if leb b a then pos (a - b) else negsuc (b - a - 1)

infixl 65 ◌+ℤ◌
infix 50 ◌≤ℤ◌ ◌<ℤ◌
unfoldable pub ◌+ℤ◌ : ℤ → ℤ → ℤ
a +ℤ b = sub_ℕ (pos_part a + pos_part b) (neg_part a + neg_part b)

-- Multiplication by a natural number.
unfoldable pub scale : ℤ → ℕ → ℤ
scale a k = sub_ℕ (pos_part a * k) (neg_part a * k)

-- `Math.floor(a / k)` for a positive `k`.
unfoldable pub floor_div : ℤ → ℕ → ℤ
floor_div (pos n) k = pos (n / k)
floor_div (negsuc n) k = negsuc (n / k)

abbrev pub ◌≤ℤ◌ : ℤ → ℤ → Type 0
a ≤ℤ b = pos_part a + neg_part b ≤ pos_part b + neg_part a

abbrev pub ◌<ℤ◌ : ℤ → ℤ → Type 0
a <ℤ b = pos_part a + neg_part b < pos_part b + neg_part a

abbrev pub ltb_ℤ : ℤ → ℤ → Bool
ltb_ℤ a b = ltb (pos_part a + neg_part b) (pos_part b + neg_part a)

abbrev pub leb_ℤ : ℤ → ℤ → Bool
leb_ℤ a b = leb (pos_part a + neg_part b) (pos_part b + neg_part a)

pub ltb_ℤ→lt : (a b : ℤ) → ltb_ℤ a b ≡ true → a <ℤ b
ltb_ℤ→lt a b h = ground arith

pub ltb_ℤ→le : (a b : ℤ) → ltb_ℤ a b ≡ false → b ≤ℤ a
ltb_ℤ→le a b h = ground arith

pub ≤ℤ→ltb_ℤ : (a b : ℤ) → b ≤ℤ a → ltb_ℤ a b ≡ false
≤ℤ→ltb_ℤ a b h = ground arith

pub div_bounds : (n k : ℕ) → 0 < k → (n / k * k ≤ n) × (n < n / k * k + k)
div_bounds n k h = omega arith

pub +ℤ_parts :
    (a b : ℤ)
    → pos_part (a +ℤ b) + neg_part a + neg_part b ≡ neg_part (a +ℤ b) + pos_part a + pos_part b
unfolding ◌+ℤ◌
+ℤ_parts a b = ground arith

pub scale_parts :
    (a : ℤ) (k : ℕ) → pos_part (scale a k) + neg_part a * k ≡ neg_part (scale a k) + pos_part a * k
unfolding scale
scale_parts a k = ground arith

-- a * k + k, as (a + 1) * k.
pub scale_next :
    (a : ℤ) (k : ℕ)
    → pos_part (scale (a +ℤ pos 1) k) + neg_part (scale a k)
      ≡ neg_part (scale (a +ℤ pos 1) k) + pos_part (scale a k) + k
scale_next a k =
    omega (
      arith,
      scale_parts a k,
      scale_parts (a +ℤ pos 1) k,
      ap (λ (t : ℕ). t * k) (+ℤ_parts a (pos 1)),
    )

-- An instant lies in its period: floor(a / k) * k ≤ a < (floor(a / k) + 1) * k.
pub floor_div_bounds :
    (a : ℤ) (k : ℕ)
    → 0 < k
    → (scale (floor_div a k) k ≤ℤ a) × (a <ℤ scale (floor_div a k +ℤ pos 1) k)
unfolding floor_div
floor_div_bounds (pos n) k h = (
  omega (arith, div_bounds n k h, scale_parts (pos (n / k)) k),
  omega (arith, div_bounds n k h, scale_parts (pos (n / k)) k, scale_next (pos (n / k)) k),
)
floor_div_bounds (negsuc n) k h = (
  omega (arith, div_bounds n k h, scale_parts (negsuc (n / k)) k),
  omega (arith, div_bounds n k h, scale_parts (negsuc (n / k)) k, scale_next (negsuc (n / k)) k),
)

-- Instants of one order have periods of that order.
pub floor_div_mono : (a b : ℤ) (k : ℕ) → 0 < k → a ≤ℤ b → floor_div a k ≤ℤ floor_div b k
unfolding floor_div
floor_div_mono (pos n) (pos m) k h l = grind (arith, div_bounds n k h, div_bounds m k h)
floor_div_mono (pos n) (negsuc m) k h l = absurd (omega arith)
floor_div_mono (negsuc n) (pos m) k h l = omega arith
floor_div_mono (negsuc n) (negsuc m) k h l = grind (arith, div_bounds n k h, div_bounds m k h)

mul-le-mul : (a b k : ℕ) → a ≤ b → a * k ≤ b * k
mul-le-mul a b k h = grind arith

pub scale_mono : (a b : ℤ) (k : ℕ) → a ≤ℤ b → scale a k ≤ℤ scale b k
scale_mono a b k h = omega (
  arith,
  mul-le-mul (pos_part a + neg_part b) (pos_part b + neg_part a) k h,
  scale_parts a k,
  scale_parts b k,
)

-- An instant whose period is not later than that of `start` lies before the end of that period,
-- and an instant of a later period lies at that end or after it.
pub period_end_bounds :
    (start last now : ℤ) (k : ℕ)
    → 0 < k
    → floor_div last k ≤ℤ floor_div start k
    → floor_div start k <ℤ floor_div now k
    → (last <ℤ scale (floor_div start k +ℤ pos 1) k) × (scale (floor_div start k +ℤ pos 1) k ≤ℤ now)
period_end_bounds start last now k h before after = (
  omega (
    arith,
    floor_div_bounds last k h,
    scale_mono (floor_div last k) (floor_div start k) k before,
    scale_next (floor_div last k) k,
    scale_next (floor_div start k) k,
  ),
  omega (
    arith,
    floor_div_bounds now k h,
    scale_mono (floor_div start k +ℤ pos 1) (floor_div now k) k
        (omega (arith, +ℤ_parts (floor_div start k) (pos 1))),
  ),
)
