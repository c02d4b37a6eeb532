-- ===== src/Base/Int.antt =====
-- Signed integers, the `int` of the sources where no overflow happens, with C's truncating division,
-- and the conversions between `int` and `unsigned int`.
use Prim.Native.Nat.{ℕ, suc, ◌+◌, ◌-◌, ◌*◌, ◌/◌, ◌%◌, ◌^◌, ◌≤◌, ◌<◌}
use mathlib.Core.Path.{◌≡◌}
use mathlib.Core.Bool.{Bool}
use native.Mathlib.Omega.{arith}
use mapcache.Base.Tests.{ltb, leb, ◌==◌, if◌then◌else◌}

-- `negsuc n` is -(n + 1).
pub data ℤ : Type 0 where
  pos : ℕ → ℤ
  negsuc : ℕ → ℤ

abbrev pub pos_part : ℤ → ℕ
pos_part (pos n) = n
pos_part (negsuc n) = 0

abbrev pub neg_part : ℤ → ℕ
neg_part (pos n) = 0
neg_part (negsuc n) = suc n

-- a - b, as an integer.
abbrev pub sub_ℕ : ℕ → ℕ → ℤ
sub_ℕ a b = if leb b a then pos (a - b) else negsuc (b - a - 1)

infixl 65 ◌+ℤ◌ ◌-ℤ◌
infixl 70 ◌*ℤ◌
infix 50 ◌≤ℤ◌ ◌<ℤ◌
unfoldable pub ◌+ℤ◌ : ℤ → ℤ → ℤ
a +ℤ b = sub_ℕ (pos_part a + pos_part b) (neg_part a + neg_part b)

unfoldable pub ◌-ℤ◌ : ℤ → ℤ → ℤ
a -ℤ b = sub_ℕ (pos_part a + neg_part b) (neg_part a + pos_part b)

unfoldable pub ◌*ℤ◌ : ℤ → ℤ → ℤ
a *ℤ b =
    sub_ℕ (pos_part a * pos_part b + neg_part a * neg_part b)
      (pos_part a * neg_part b + neg_part a * pos_part b)

abbrev pub ◌≤ℤ◌ : ℤ → ℤ → Type 0
a ≤ℤ b = pos_part a + neg_part b ≤ pos_part b + neg_part a

abbrev pub ◌<ℤ◌ : ℤ → ℤ → Type 0
a <ℤ b = pos_part a + neg_part b < pos_part b + neg_part a

abbrev pub ltb_ℤ : ℤ → ℤ → Bool
ltb_ℤ a b = ltb (pos_part a + neg_part b) (pos_part b + neg_part a)

abbrev pub leb_ℤ : ℤ → ℤ → Bool
leb_ℤ a b = leb (pos_part a + neg_part b) (pos_part b + neg_part a)

infix 50 ◌==ℤ◌
abbrev pub ◌==ℤ◌ : ℤ → ℤ → Bool
a ==ℤ b = pos_part a + neg_part b == pos_part b + neg_part a

-- `a / b` on `int`, the quotient rounded towards zero; where the divisor is 0 the code has no value,
-- and its callers say so.
unfoldable pub quot_ℤ : ℤ → ℤ → ℤ
quot_ℤ (pos a) (pos b) = pos (a / b)
quot_ℤ (pos a) (negsuc b) = sub_ℕ 0 (a / suc b)
quot_ℤ (negsuc a) (pos b) = sub_ℕ 0 (suc a / b)
quot_ℤ (negsuc a) (negsuc b) = pos (suc a / suc b)

-- `a % b` on `int`, which takes the sign of `a`.
unfoldable pub rem_ℤ : ℤ → ℕ → ℤ
rem_ℤ (pos a) b = pos (a % b)
rem_ℤ (negsuc a) b = sub_ℕ 0 (suc a % b)

-- `fabs` and `MAPCACHE_MAX`, `MAPCACHE_MIN`
abbrev pub abs_ℤ : ℤ → ℕ
abs_ℤ a = pos_part a + neg_part a

abbrev pub max_ℤ : ℤ → ℤ → ℤ
max_ℤ a b = if ltb_ℤ b a then a else b

abbrev pub min_ℤ : ℤ → ℤ → ℤ
min_ℤ a b = if ltb_ℤ a b then a else b

-- `floor(a / b)` and `ceil(a / b)` for a positive divisor.
unfoldable pub floor_ℤ : ℤ → ℕ → ℤ
floor_ℤ (pos n) d = pos (n / d)
floor_ℤ (negsuc n) d = negsuc (n / d)

unfoldable pub ceil_ℤ : ℤ → ℕ → ℤ
ceil_ℤ (pos n) d = pos ((n + d - 1) / d)
ceil_ℤ (negsuc n) d = sub_ℕ 0 (suc n / d)

-- The conversions `(unsigned int) a` and `(int) n` of a 32-bit target.
unfoldable pub to_u32 : ℤ → ℕ
to_u32 (pos n) = n % 2 ^ 32
to_u32 (negsuc n) = 2 ^ 32 - 1 - n % 2 ^ 32

unfoldable pub to_i32 : ℕ → ℤ
to_i32 n = if ltb (n % 2 ^ 32) (2 ^ 31) then pos (n % 2 ^ 32) else sub_ℕ (n % 2 ^ 32) (2 ^ 32)

pub +ℤ_parts :
    (a b : ℤ)
    → pos_part (a +ℤ b) + neg_part a + neg_part b ≡ neg_part (a +ℤ b) + pos_part a + pos_part b
unfolding ◌+ℤ◌
+ℤ_parts a b = ground arith

pub -ℤ_parts :
    (a b : ℤ)
    → pos_part (a -ℤ b) + neg_part a + pos_part b ≡ neg_part (a -ℤ b) + pos_part a + neg_part b
unfolding ◌-ℤ◌
-ℤ_parts a b = ground arith

pub eq_of_parts : (a b : ℤ) → pos_part a + neg_part b ≡ pos_part b + neg_part a → a ≡ b
eq_of_parts a b h = ground arith

pub ruleset int_laws = (arith, +ℤ_parts, -ℤ_parts, eq_of_parts)

-- The operations on values that are not negative.
pub pos+pos : (a b : ℕ) → pos a +ℤ pos b ≡ pos (a + b)
unfolding ◌+ℤ◌
pos+pos a b = ground arith

pub pos*pos : (a b : ℕ) → pos a *ℤ pos b ≡ pos (a * b)
unfolding ◌*ℤ◌
pos*pos a b = ground arith

pub pos-pos : (a b : ℕ) → b ≤ a → pos a -ℤ pos b ≡ pos (a - b)
unfolding ◌-ℤ◌
pos-pos a b h = ground arith

pub to_u32-pos : (n : ℕ) → n < 2 ^ 32 → to_u32 (pos n) ≡ n
unfolding to_u32
to_u32-pos n h = omega arith

pub to_i32-pos : (n : ℕ) → n < 2 ^ 31 → to_i32 n ≡ pos n
unfolding to_i32
to_i32-pos n h = ground arith

-- The parts of a multiple.
pub pos*_parts :
    (c : ℕ) (a : ℤ)
    → (pos_part (pos c *ℤ a) ≡ c * pos_part a) × (neg_part (pos c *ℤ a) ≡ c * neg_part a)
unfolding ◌*ℤ◌
pos*_parts c (pos n) = ground arith
pos*_parts c (negsuc n) = ground arith

pub floor_ℤ-le : (v : ℤ) (w x : ℕ) → 0 < w → v <ℤ pos (w * (x + 1)) → floor_ℤ v w ≤ℤ pos x
unfolding floor_ℤ
floor_ℤ-le (pos n) w x p h = grind arith
floor_ℤ-le (negsuc n) w x p h = omega arith

pub lt-ceil_ℤ : (v : ℤ) (w x : ℕ) → 0 < w → pos (w * x) <ℤ v → pos x <ℤ ceil_ℤ v w
unfolding ceil_ℤ
lt-ceil_ℤ (pos n) w x p h = grind arith
lt-ceil_ℤ (negsuc n) w x p h = absurd (omega arith)

-- The range of `int`.
abbrev pub IsInt : ℤ → Type 0
IsInt a = (pos_part a < 2 ^ 31) × (neg_part a ≤ 2 ^ 31)

pub to_u32-negsuc :
    (n : ℕ) → n < 2 ^ 31 → (2 ^ 31 ≤ to_u32 (negsuc n)) × (to_u32 (negsuc n) < 2 ^ 32)
unfolding to_u32
to_u32-negsuc n h = omega arith

pub div_unique : (k u p : ℕ) → p < u → (k * u + p) / u ≡ k
div_unique k u p h = grind arith
