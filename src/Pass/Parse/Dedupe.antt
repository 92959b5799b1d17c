-- ===== src/Pass/Parse/Dedupe.antt =====
-- src/pass/parse.rs: which entries `dedupe_selectors` keeps.
use cosmic_pass.Base.{
  ◌≡◌, refl, sym, ◌∙◌, ap, String, Bool, true, false, not, ◌&&◌, ◌||◌, Option, none, some, List, [],
  ◌∷◌, ◌++◌, reverse, if◌then◌else◌, any, find, is_some, arith, Bool-cases, inl, inr, subst,
}
use cosmic_pass.Pass.Parse.Output.{retain_new, keep_last}
use mathlib.Core.List.{append-nil, reverse-cons, reverse-reverse}
use text.Mathlib.Text.{◌==◌ as str_eq}
use text.Mathlib.TextEquality.{eq_iff}

str_eq_sym : (s t : String) → str_eq s t ≡ str_eq t s
str_eq_sym s t = elim (Bool-cases (str_eq s t)) [
  | inl e ↦ e ∙ sym ((eq_iff t s).1 (sym ((eq_iff s t).0 e)))
  | inr e ↦ elim (Bool-cases (str_eq t s)) [
    | inl f ↦ absurd (cc (e, (eq_iff s t).1 (sym ((eq_iff t s).0 f))))
    | inr f ↦ e ∙ sym f
  ]
]

module _ {A : Type 0} (name : A → String) where
  -- Whether an entry has a name, and the last entry that has it.
  unfoldable pub is_named : String → List A → Bool
  unfolding any
  is_named n xs = any (λ x. str_eq (name x) n) xs

  abbrev later : {B : Type 0} → Option B → Option B → Option B
  later none b = b
  later (some a) b = some a

  unfoldable pub last_named : String → List A → Option A
  last_named n [] = none
  last_named n (x ∷ xs) = later (last_named n xs) (if str_eq (name x) n then some x else none)

  unfoldable pub is_distinct : List A → Bool
  unfolding is_named
  is_distinct [] = true
  is_distinct (x ∷ xs) = not (is_named (name x) xs) && is_distinct xs

  unfoldable pub kept : List String → List A → List A
  unfolding any is_named
  kept seen [] = []
  kept seen (x ∷ xs) =
      if any (str_eq (name x)) seen || is_named (name x) xs then kept seen xs else x ∷ kept seen xs

  is_named-append :
      (n : String) (xs ys : List A) → is_named n (xs ++ ys) ≡ (is_named n xs || is_named n ys)
  unfolding is_named any
  is_named-append n [] ys = refl
  is_named-append n (x ∷ xs) ys = ground (arith, is_named-append n xs ys)

  is_named-reverse : (n : String) (xs : List A) → is_named n (reverse xs) ≡ is_named n xs
  unfolding is_named any
  is_named-reverse n [] = refl
  is_named-reverse n (x ∷ xs) =
      rw (reverse-cons x xs)
        (ground (arith, is_named-append n (reverse xs) (x ∷ []), is_named-reverse n xs))

  abbrev new_end : List String → List A → A → List A
  new_end seen ys x = if any (str_eq (name x)) seen || is_named (name x) ys then [] else x ∷ []

  seen_again :
      (x y : A) (seen : List String)
      → any (str_eq (name y)) seen ≡ true
      → str_eq (name y) (name x) ≡ true
      → any (str_eq (name x)) seen ≡ true
  seen_again x y seen h e =
      subst (λ n. any (str_eq n) seen ≡ true) ((eq_iff (name y) (name x)).0 e) h

  retain_new-snoc :
      (seen : List String) (ys : List A) (x : A)
      → retain_new name seen (ys ++ x ∷ []) ≡ retain_new name seen ys ++ new_end seen ys x
  unfolding retain_new is_named any
  retain_new-snoc seen [] x = ground arith
  retain_new-snoc seen (y ∷ ys) x = ground (
    arith,
    retain_new-snoc seen ys x,
    retain_new-snoc (name y ∷ seen) ys x,
    str_eq_sym (name x) (name y),
    seen_again x y seen,
  )

  retain_new-reverse :
      (seen : List String) (xs : List A)
      → retain_new name seen (reverse xs) ≡ reverse (kept seen xs)
  unfolding kept retain_new
  retain_new-reverse seen [] = refl
  retain_new-reverse seen (x ∷ xs) =
      rw
        (
          reverse-cons x xs,
          retain_new-snoc seen (reverse xs) x,
          is_named-reverse,
          retain_new-reverse seen xs,
        )
        (ground (arith, reverse-cons x (kept seen xs), append-nil (reverse (kept seen xs))))

  pub keep_last-kept : (xs : List A) → keep_last name xs ≡ kept [] xs
  unfolding keep_last
  keep_last-kept xs = ap reverse (retain_new-reverse [] xs) ∙ reverse-reverse (kept [] xs)

  is_some-last_named : (n : String) (xs : List A) → is_some (last_named n xs) ≡ is_named n xs
  unfolding last_named is_named any
  is_some-last_named n [] = refl
  is_some-last_named n (x ∷ xs) = ground (arith, is_some-last_named n xs)

  is_some-find :
      (n : String) (xs : List A) → is_some (find (λ x. str_eq (name x) n) xs) ≡ is_named n xs
  unfolding find is_named any
  is_some-find n [] = refl
  is_some-find n (x ∷ xs) = ground (arith, is_some-find n xs)

  later_some : (a b : Option A) → is_some a ≡ true → later a b ≡ a
  later_some none b h = cc
  later_some (some a) b h = refl

  later_none : (a b : Option A) → is_some a ≡ false → later a b ≡ b
  later_none none b h = refl
  later_none (some a) b h = cc

  named_again :
      (n : String) (x : A) (xs : List A)
      → str_eq (name x) n ≡ true
      → is_named (name x) xs ≡ is_named n xs
  named_again n x xs e = ap (λ m. is_named m xs) ((eq_iff (name x) n).0 e)

  find-kept :
      (n : String) (xs : List A) → find (λ x. str_eq (name x) n) (kept [] xs) ≡ last_named n xs
  unfolding kept find last_named any
  find-kept n [] = refl
  find-kept n (x ∷ xs) = ground (
    arith,
    find-kept n xs,
    is_some-last_named n xs,
    named_again n x xs,
    later_none (last_named n xs) (some x),
    later_none (last_named n xs) none,
    later_some (last_named n xs) (some x),
    later_some (last_named n xs) none,
  )

  -- Looking a name up among the entries that are kept finds the last entry of that name.
  pub find-keep_last :
      (n : String) (xs : List A)
      → find (λ x. str_eq (name x) n) (keep_last name xs) ≡ last_named n xs
  find-keep_last n xs = ap (find (λ x. str_eq (name x) n)) (keep_last-kept xs) ∙ find-kept n xs

  is_named-kept : (n : String) (xs : List A) → is_named n (kept [] xs) ≡ is_named n xs
  is_named-kept n xs =
      sym (is_some-find n (kept [] xs)) ∙ ap is_some (find-kept n xs) ∙ is_some-last_named n xs

  is_distinct-kept : (xs : List A) → is_distinct (kept [] xs) ≡ true
  unfolding kept is_distinct any
  is_distinct-kept [] = refl
  is_distinct-kept (x ∷ xs) = ground (arith, is_named-kept (name x) xs, is_distinct-kept xs)

  pub is_distinct-keep_last : (xs : List A) → is_distinct (keep_last name xs) ≡ true
  is_distinct-keep_last xs = ap is_distinct (keep_last-kept xs) ∙ is_distinct-kept xs
