-- ===== src/Base/Orders.antt =====
-- Comparisons that turn round when their arguments are exchanged.
use Prim.Native.Nat.{ℕ, compare, Ordering}
use mathlib.Core.Path.{◌≡◌, refl}
use mathlib.Core.Bool.{true, false}
use native.Mathlib.Omega.{arith}
use cosmic_pass.Base.Tests.{is_gt, then_with}
use cosmic_pass.Base.Int.{ℤ, compare_ℤ}

abbrev pub swapped : Ordering → Ordering
swapped Ordering.lt = Ordering.gt
swapped Ordering.eq = Ordering.eq
swapped Ordering.gt = Ordering.lt

pub compare_swap : (a b : ℕ) → compare b a ≡ swapped (compare a b)
compare_swap a b = ground arith

pub compare_ℤ_swap : (a b : ℤ) → compare_ℤ b a ≡ swapped (compare_ℤ a b)
compare_ℤ_swap a b = compare_swap _ _

pub then_with-swapped :
    (a b : Ordering) → then_with (swapped a) (swapped b) ≡ swapped (then_with a b)
then_with-swapped Ordering.lt b = refl
then_with-swapped Ordering.eq b = refl
then_with-swapped Ordering.gt b = refl

-- A comparison that turns round never puts each of two values after the other.
pub swapped_is_after : (a : Ordering) → is_gt a ≡ true → is_gt (swapped a) ≡ false
swapped_is_after Ordering.lt h = cc
swapped_is_after Ordering.eq h = cc
swapped_is_after Ordering.gt h = refl
