-- ===== src/Base/Sorting.antt =====
-- What `sort_by` and `take` keep: members, their tests, and adjacent order.
use Prim.Native.Nat.{ℕ, zero, suc, Ordering}
use mathlib.Core.Path.{◌≡◌, refl}
use mathlib.Core.Bool.{Bool, true, false}
use mathlib.Core.List.{List, [], ◌∷◌, Perm}
use mathlib.Core.List.Perm
use native.Mathlib.Omega.{arith}
use mathlib.Core.Logic.{inl, inr}
use cosmic_pass.Base.Tests.{is_gt, Bool-cases}
use cosmic_pass.Base.Lists.{length, all, take, insert_by, sort_by}

module _ {ℓ} {A : Type ℓ} where
  pub all-take : (p : A → Bool) (n : ℕ) (xs : List A) → all p xs ≡ true → all p (take n xs) ≡ true
  unfolding all take
  all-take p zero xs h = refl
  all-take p (suc n) [] h = refl
  all-take p (suc n) (x ∷ xs) h = ground (arith, all-take p n xs)

module _ {ℓ} {A : Type ℓ} (cmp : A → A → Ordering) where
  all-insert_by :
      (p : A → Bool) (x : A) (ys : List A)
      → p x ≡ true
      → all p ys ≡ true
      → all p (insert_by cmp x ys) ≡ true
  unfolding all insert_by
  all-insert_by p x [] h k = ground arith
  all-insert_by p x (y ∷ ys) h k = ground (arith, all-insert_by p x ys h)

  pub all-sort_by : (p : A → Bool) (xs : List A) → all p xs ≡ true → all p (sort_by cmp xs) ≡ true
  unfolding all sort_by
  all-sort_by p [] h = refl
  all-sort_by p (x ∷ xs) h =
      all-insert_by p x (sort_by cmp xs) (ground arith) (all-sort_by p xs (ground arith))

  length-insert_by : (x : A) (ys : List A) → length (insert_by cmp x ys) ≡ suc (length ys)
  unfolding insert_by
  length-insert_by x [] = refl
  length-insert_by x (y ∷ ys) = ground (arith, length-insert_by x ys)

  pub length-sort_by : (xs : List A) → length (sort_by cmp xs) ≡ length xs
  unfolding sort_by
  length-sort_by [] = refl
  length-sort_by (x ∷ xs) = omega (arith, length-insert_by x (sort_by cmp xs), length-sort_by xs)

  insert_by-perm : (x : A) (ys : List A) → Perm (insert_by cmp x ys) (x ∷ ys)
  unfolding insert_by
  insert_by-perm x [] = Perm.refl (x ∷ [])
  insert_by-perm x (y ∷ ys) = elim (Bool-cases (is_gt (cmp x y))) [
    | inl e ↦ rw e (Perm.trans (Perm.cons y (insert_by-perm x ys)) (Perm.swap x y ys))
    | inr e ↦ rw e (Perm.refl (x ∷ y ∷ ys))
  ]

  pub sort_by-perm : (xs : List A) → Perm (sort_by cmp xs) xs
  unfolding sort_by
  sort_by-perm [] = Perm.refl []
  sort_by-perm (x ∷ xs) =
      Perm.trans (insert_by-perm x (sort_by cmp xs)) (Perm.cons x (sort_by-perm xs))

  -- No member stands before one that it comes after.
  abbrev pub IsSorted : List A → Type 0
  IsSorted [] = Unit {0}
  IsSorted (x ∷ []) = Unit {0}
  IsSorted (x ∷ y ∷ ys) = (is_gt (cmp x y) ≡ false) × IsSorted (y ∷ ys)

  module _ (flips : (a b : A) → is_gt (cmp a b) ≡ true → is_gt (cmp b a) ≡ false) where
    insert_by-IsSorted : (x : A) (ys : List A) → IsSorted ys → IsSorted (insert_by cmp x ys)
    unfolding insert_by
    insert_by-IsSorted x [] h = tt
    insert_by-IsSorted x (y ∷ []) h = elim (Bool-cases (is_gt (cmp x y))) [
      | inl e ↦ rw e (flips x y e, tt)
      | inr e ↦ rw e (e, tt)
    ]
    insert_by-IsSorted x (y ∷ z ∷ zs) h = elim (Bool-cases (is_gt (cmp x y))) [
      | inr e ↦ rw e (e, h)
      | inl e ↦ elim (Bool-cases (is_gt (cmp x z))) [
        | inl f ↦ rw e (rw f (h.0, rw f at (insert_by-IsSorted x (z ∷ zs) h.1)))
        | inr f ↦ rw e (rw f (flips x y e, (f, h.1)))
      ]
    ]

    pub sort_by-IsSorted : (xs : List A) → IsSorted (sort_by cmp xs)
    unfolding sort_by
    sort_by-IsSorted [] = tt
    sort_by-IsSorted (x ∷ xs) = insert_by-IsSorted x (sort_by cmp xs) (sort_by-IsSorted xs)

    pub take-IsSorted : (n : ℕ) (xs : List A) → IsSorted xs → IsSorted (take n xs)
    unfolding take
    take-IsSorted zero xs h = tt
    take-IsSorted (suc n) [] h = tt
    take-IsSorted (suc zero) (x ∷ []) h = tt
    take-IsSorted (suc (suc n)) (x ∷ []) h = tt
    take-IsSorted (suc zero) (x ∷ y ∷ ys) h = tt
    take-IsSorted (suc (suc n)) (x ∷ y ∷ ys) h = (h.0, take-IsSorted (suc n) (y ∷ ys) h.1)
