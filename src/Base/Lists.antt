-- ===== src/Base/Lists.antt =====
-- Lists by position, and searches, over the native numbers.
use Prim.Native.Nat.{ℕ, zero, suc, Ordering, ◌≤◌, ◌<◌}
use mathlib.Core.Path.{◌≡◌, refl}
use mathlib.Core.Logic.{inl, inr}
use mathlib.Core.Bool.{Bool, true, false, ◌&&◌, ◌||◌}
use mathlib.Core.Option.{Option, none, some}
use mathlib.Core.List.{List, [], ◌∷◌}
use native.Mathlib.Omega.{arith}
use cosmic_pass.Base.Tests.{is_gt, if◌then◌else◌, Bool-cases}

abbrev pub is_some {ℓ} : {A : Type ℓ} → Option A → Bool
is_some none = false
is_some (some a) = true

-- `Option::or_else`, and `Option::and_then`, whose laws compute.
abbrev pub or_else {ℓ} : {A : Type ℓ} → Option A → Option A → Option A
or_else none b = b
or_else (some a) b = some a

abbrev pub and_then {ℓ κ} : {A : Type ℓ} {B : Type κ} → Option A → (A → Option B) → Option B
and_then none f = none
and_then (some a) f = f a

abbrev pub map_option {ℓ κ} : {A : Type ℓ} {B : Type κ} → (A → B) → Option A → Option B
map_option f none = none
map_option f (some a) = some (f a)

abbrev pub unwrap_or {ℓ} : {A : Type ℓ} → Option A → A → A
unwrap_or none d = d
unwrap_or (some a) d = a

-- `Option::is_some_and`.
abbrev pub is_some_and {ℓ} : {A : Type ℓ} → Option A → (A → Bool) → Bool
is_some_and none p = false
is_some_and (some a) p = p a

module _ {ℓ} {A : Type ℓ} where
  abbrev pub length : List A → ℕ
  length [] = 0
  length (x ∷ xs) = suc (length xs)

  unfoldable pub get_elem? : List A → ℕ → Option A
  get_elem? [] i = none
  get_elem? (x ∷ xs) zero = some x
  get_elem? (x ∷ xs) (suc i) = get_elem? xs i

  unfoldable pub take : ℕ → List A → List A
  take zero xs = []
  take (suc n) [] = []
  take (suc n) (x ∷ xs) = x ∷ take n xs

  -- `Iterator::find` and `Iterator::position`.
  unfoldable pub find : (A → Bool) → List A → Option A
  find p [] = none
  find p (x ∷ xs) = if p x then some x else find p xs

  unfoldable pub position : (A → Bool) → List A → Option ℕ
  position p [] = none
  position p (x ∷ xs) = let rest = map_option suc (position p xs) in if p x then some 0 else rest

  unfoldable pub all : (A → Bool) → List A → Bool
  all p [] = true
  all p (x ∷ xs) = p x && all p xs

  unfoldable pub any : (A → Bool) → List A → Bool
  any p [] = false
  any p (x ∷ xs) = p x || any p xs

  unfoldable pub keep : (A → Bool) → List A → List A
  keep p [] = []
  keep p (x ∷ xs) = if p x then x ∷ keep p xs else keep p xs

  abbrev pub head : List A → Option A
  head [] = none
  head (x ∷ xs) = some x

  pub length-take : (n : ℕ) (xs : List A) → length (take n xs) ≤ n
  unfolding take
  length-take zero xs = omega arith
  length-take (suc n) [] = omega arith
  length-take (suc n) (x ∷ xs) = omega (arith, length-take n xs)

  pub get_elem?_lt : (xs : List A) (i : ℕ) {x : A} → get_elem? xs i ≡ some x → i < length xs
  unfolding get_elem?
  get_elem?_lt [] i h = cc
  get_elem?_lt (y ∷ ys) zero h = omega arith
  get_elem?_lt (y ∷ ys) (suc i) h = omega (arith, get_elem?_lt ys i h)

  pub get_elem?_of_lt : (xs : List A) (i : ℕ) → i < length xs → (x : A) × (get_elem? xs i ≡ some x)
  unfolding get_elem?
  get_elem?_of_lt [] i h = absurd (omega arith)
  get_elem?_of_lt (y ∷ ys) zero h = (y, refl)
  get_elem?_of_lt (y ∷ ys) (suc i) h = get_elem?_of_lt ys i (omega arith)

  pub find_holds : (p : A → Bool) (xs : List A) {x : A} → find p xs ≡ some x → p x ≡ true
  unfolding find
  find_holds p [] h = cc
  find_holds p (y ∷ ys) {x} h = ground (arith, λ (e : find p ys ≡ some x). find_holds p ys e)

  -- A position that is found holds a member that passes the test.
  pub position_lem :
      (p : A → Bool) (xs : List A) (j : ℕ)
      → position p xs ≡ some j
      → (x : A) × (get_elem? xs j ≡ some x) × (p x ≡ true)
  unfolding position get_elem?
  position_lem p [] j h = cc
  position_lem p (y ∷ ys) zero h = elim (Bool-cases (p y)) [
    | inl e ↦ (y, refl, e)
    | inr e ↦ ground (arith, h)
  ]
  position_lem p (y ∷ ys) (suc j) h = position_lem p ys j (ground arith)

-- A predicate on every member.
abbrev pub All {ℓ κ} : {A : Type ℓ} → (A → Type κ) → List A → Type κ
All P [] = Unit
All P (x ∷ xs) = P x × All P xs

-- `slice::sort_by`, which is stable, by insertion.
module _ {ℓ} {A : Type ℓ} (cmp : A → A → Ordering) where
  unfoldable pub insert_by : A → List A → List A
  insert_by x [] = x ∷ []
  insert_by x (y ∷ ys) = if is_gt (cmp x y) then y ∷ insert_by x ys else x ∷ y ∷ ys

  unfoldable pub sort_by : List A → List A
  unfolding insert_by
  sort_by [] = []
  sort_by (x ∷ xs) = insert_by x (sort_by xs)
