-- ===== src/Base/Int.antt =====
-- Signed integers over the native numbers, for `i64` times; sums and orders by their two parts.
use Prim.Native.Nat.{ℕ, suc, ◌+◌, ◌-◌, ◌*◌, ◌/◌, ◌%◌, ◌^◌, ◌≤◌, compare, Ordering}
use mathlib.Core.Path.{◌≡◌}
use mathlib.Core.Bool.{Bool}
use native.Mathlib.Omega.{arith}
use cosmic_pass.Base.Tests.{ltb, leb, ◌==◌, if◌then◌else◌}

-- `negsuc n` is -(n + 1).
pub data ℤ : Type 0 where
  pos : ℕ → ℤ
  negsuc : ℕ → ℤ

abbrev pub pos_part : ℤ → ℕ
pos_part (pos n) = n
pos_part (negsuc n) = 0

abbrev pub neg_part : ℤ → ℕ
neg_part (pos n) = 0
neg_part (negsuc n) = suc n

-- a - b, as an integer.
abbrev pub sub_ℕ : ℕ → ℕ → ℤ
sub_ℕ a b = if leb b a then pos (a - b) else negsuc (b - a - 1)

infixl 65 ◌+ℤ◌ ◌-ℤ◌
infixl 70 ◌*ℤ◌
infix 50 ◌≤ℤ◌
unfoldable pub ◌+ℤ◌ : ℤ → ℤ → ℤ
a +ℤ b = sub_ℕ (pos_part a + pos_part b) (neg_part a + neg_part b)

unfoldable pub ◌-ℤ◌ : ℤ → ℤ → ℤ
a -ℤ b = sub_ℕ (pos_part a + neg_part b) (neg_part a + pos_part b)

unfoldable pub ◌*ℤ◌ : ℤ → ℤ → ℤ
a *ℤ b =
    sub_ℕ (pos_part a * pos_part b + neg_part a * neg_part b)
      (pos_part a * neg_part b + neg_part a * pos_part b)

abbrev pub ◌≤ℤ◌ : ℤ → ℤ → Type 0
a ≤ℤ b = pos_part a + neg_part b ≤ pos_part b + neg_part a

abbrev pub ltb_ℤ : ℤ → ℤ → Bool
ltb_ℤ a b = ltb (pos_part a + neg_part b) (pos_part b + neg_part a)

-- One lemma for each operation lets `omega` work with the operations shut, at any depth.
pub +ℤ_parts :
    (a b : ℤ)
    → pos_part (a +ℤ b) + neg_part a + neg_part b ≡ neg_part (a +ℤ b) + pos_part a + pos_part b
unfolding ◌+ℤ◌
+ℤ_parts a b = ground arith

pub -ℤ_parts :
    (a b : ℤ)
    → pos_part (a -ℤ b) + neg_part a + pos_part b ≡ neg_part (a -ℤ b) + pos_part a + neg_part b
unfolding ◌-ℤ◌
-ℤ_parts a b = ground arith

pub add_pos : (a b : ℕ) → pos a +ℤ pos b ≡ pos (a + b)
unfolding ◌+ℤ◌
add_pos a b = ground arith

pub mul_pos : (a b : ℕ) → pos a *ℤ pos b ≡ pos (a * b)
unfolding ◌*ℤ◌
mul_pos a b = grind arith

pub eq_of_parts : (a b : ℤ) → pos_part a + neg_part b ≡ pos_part b + neg_part a → a ≡ b
eq_of_parts a b h = ground arith

pub ruleset int_laws = (arith, +ℤ_parts, -ℤ_parts, eq_of_parts)

-- a <= b, as a test.
abbrev pub leb_ℤ : ℤ → ℤ → Bool
leb_ℤ a b = leb (pos_part a + neg_part b) (pos_part b + neg_part a)

abbrev pub eqb_ℤ : ℤ → ℤ → Bool
eqb_ℤ a b = pos_part a + neg_part b == pos_part b + neg_part a

abbrev pub max_ℤ : ℤ → ℤ → ℤ
max_ℤ a b = if leb_ℤ a b then b else a

-- `i64::MAX` and `i64::MIN`.
abbrev pub i64_max : ℤ
i64_max = pos (2 ^ 63 - 1)

abbrev pub i64_min : ℤ
i64_min = negsuc (2 ^ 63 - 1)

-- The bounds at which `saturating_add` and `saturating_sub` stop.
unfoldable pub clamp_i64 : ℤ → ℤ
clamp_i64 a = if ltb_ℤ i64_max a then i64_max else if ltb_ℤ a i64_min then i64_min else a

unfoldable pub saturating_sub_i64 : ℤ → ℤ → ℤ
unfolding clamp_i64 ◌-ℤ◌
saturating_sub_i64 a b = clamp_i64 (a -ℤ b)

unfoldable pub saturating_add_i64 : ℤ → ℤ → ℤ
unfolding clamp_i64 ◌+ℤ◌
saturating_add_i64 a b = clamp_i64 (a +ℤ b)

-- What an `i64` holds of a number: the number modulo `2 ^ 64`, from `i64::MIN` on.
unfoldable pub wrap_i64 : ℤ → ℤ
wrap_i64 (pos n) = let r = n % 2 ^ 64 in if ltb r (2 ^ 63) then pos r else negsuc (2 ^ 64 - 1 - r)
wrap_i64 (negsuc n) =
    let r = n % 2 ^ 64 in if ltb r (2 ^ 63) then negsuc r else pos (2 ^ 64 - 1 - r)

pub wrap_i64_within : (x : ℤ) → i64_min ≤ℤ x → x ≤ℤ i64_max → wrap_i64 x ≡ x
unfolding wrap_i64
wrap_i64_within (pos n) h k = ground arith
wrap_i64_within (negsuc n) h k = ground arith

-- `i64::div_euclid` by a positive divisor: the quotient rounded down.
unfoldable pub div_euclid : ℤ → ℕ → ℤ
div_euclid (pos n) k = pos (n / k)
div_euclid (negsuc n) k = negsuc (n / k)

unfoldable pub rem_euclid : ℤ → ℕ → ℕ
rem_euclid (pos n) k = n % k
rem_euclid (negsuc n) k = k - 1 - n % k

abbrev pub compare_ℤ : ℤ → ℤ → Ordering
compare_ℤ a b = compare (pos_part a + neg_part b) (pos_part b + neg_part a)

-- The `u64` counters and the `u32` counts wrap or stop at their widths.
abbrev pub u64_mod : ℕ
u64_mod = 2 ^ 64

abbrev pub u32_max : ℕ
u32_max = 2 ^ 32 - 1
