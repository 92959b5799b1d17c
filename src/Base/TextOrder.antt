-- ===== src/Base/TextOrder.antt =====
-- The order of texts turns round when its arguments are exchanged.
use Prim.Native.Nat.{compare as compare_ℕ, Ordering}
use Prim.Native.Char.{code}
use Prim.Native.String.compare
use Prim.Native.String.{String, [], ◌∷◌, compare, then}
use mathlib.Core.Path.{◌≡◌, refl, sym, ap, ◌∙◌}
use cosmic_pass.Base.Orders.{swapped, compare_swap}

then-swapped : (a b : Ordering) → then (swapped a) (swapped b) ≡ swapped (then a b)
then-swapped Ordering.lt b = refl
then-swapped Ordering.eq b = refl
then-swapped Ordering.gt b = refl

pub compare_text_swap : (s t : String) → compare t s ≡ swapped (compare s t)
compare_text_swap [] [] = refl
compare_text_swap [] (d ∷ t) = compare.cons-nil d t ∙ sym (ap swapped (compare.nil-cons d t))
compare_text_swap (c ∷ s) [] = compare.nil-cons c s ∙ sym (ap swapped (compare.cons-nil c s))
compare_text_swap (c ∷ s) (d ∷ t) =
    compare.cons-cons d c t s
    ∙ (rw (compare_swap (code c) (code d), compare_text_swap s t)
        (then-swapped (compare_ℕ (code c) (code d)) (compare s t)))
    ∙ sym (ap swapped (compare.cons-cons c d s t))
