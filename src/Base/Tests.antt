-- ===== src/Base/Tests.antt =====
-- Boolean tests over the native numbers and over texts, and splits that keep the equation.
use Prim.Native.Nat.{ℕ, ◌<◌, compare, Ordering}
use Prim.Native.String.{String}
use mathlib.Core.Path.{◌≡◌, refl}
use mathlib.Core.Logic.{◌⊎◌, inl, inr}
use mathlib.Core.Bool.{Bool, true, false}
use mathlib.Core.Option.{Option, none, some}
use native.Mathlib.Omega.{arith}
use text.Mathlib.Text.{◌==◌ as str_eq}
use text.Mathlib.TextEquality.{eq_iff}

abbrev pub ltb : ℕ → ℕ → Bool
ltb a b = elim (compare a b) [ Ordering.lt ↦ true | _ ↦ false ]

abbrev pub leb : ℕ → ℕ → Bool
leb a b = elim (compare a b) [ Ordering.gt ↦ false | _ ↦ true ]

infix 50 ◌==◌
abbrev pub ◌==◌ : ℕ → ℕ → Bool
a == b = elim (compare a b) [ Ordering.eq ↦ true | _ ↦ false ]

infix 1 if◌then◌else◌
abbrev pub if◌then◌else◌ {ℓ} : {A : Type ℓ} → Bool → A → A → A
if true then x else y = x
if false then x else y = y

pub ltb→lt : (a b : ℕ) → ltb a b ≡ true → a < b
ltb→lt a b h = ground arith

pub lt→ltb : (a b : ℕ) → a < b → ltb a b ≡ true
lt→ltb a b h = ground arith

pub Bool-cases : (b : Bool) → (b ≡ true) ⊎ (b ≡ false)
Bool-cases true = inl refl
Bool-cases false = inr refl

pub Option-cases {ℓ} : {A : Type ℓ} (o : Option A) → (o ≡ none) ⊎ ((a : A) × (o ≡ some a))
Option-cases none = inl refl
Option-cases (some a) = inr (a, refl)

-- The equality of two texts, decided by comparing them.
string_dec : (s t : String) (b : Bool) → str_eq s t ≡ b → Dec (s ≡ t)
string_dec s t true h = yes ((eq_iff s t).0 h)
string_dec s t false h = no (λ e. cc ((eq_iff s t).1 e))

unfoldable pub string_discrete : Discrete String
unfolding string_dec
string_discrete s t = string_dec s t (str_eq s t) refl

-- `Ordering::then`.
abbrev pub then_with : Ordering → Ordering → Ordering
then_with Ordering.lt o = Ordering.lt
then_with Ordering.eq o = o
then_with Ordering.gt o = Ordering.gt

abbrev pub is_lt : Ordering → Bool
is_lt Ordering.lt = true
is_lt Ordering.eq = false
is_lt Ordering.gt = false

abbrev pub is_gt : Ordering → Bool
is_gt Ordering.lt = false
is_gt Ordering.eq = false
is_gt Ordering.gt = true

-- A property of both branches is one of the test's result.
pub if_keeps {ℓ κ} :
    {A : Type ℓ} (P : A → Type κ) (b : Bool) {x y : A} → P x → P y → P (if b then x else y)
if_keeps P true h k = h
if_keeps P false h k = k
