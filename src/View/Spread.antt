-- ===== src/View/Spread.antt =====
-- src/app/view/list.rs: the runs of a title are the title, with its matches marked.
use cosmic_pass.Base.{
  ℕ, suc, ◌≤◌, ◌≡◌, refl, ◌∙◌, ap, Bool, true, false, ◌&&◌, List, [], ◌∷◌, ◌++◌, ◌==◌, ltb, any,
  all, arith, Bool-cases, inl, inr,
}
use cosmic_pass.View.Titles.{skip_below, stands_at, goes_on, runs_from, title_runs}
use mathlib.Core.List.{append_assoc}
use Prim.Native.Char.{Char}

abbrev pub mark : Bool → List Char → List (Char × Bool)
mark b [] = []
mark b (c ∷ cs) = (c, b) ∷ mark b cs

-- Every character of some runs, with the flag of its run.
unfoldable pub spread : List (List Char × Bool) → List (Char × Bool)
spread [] = []
spread ((run, b) ∷ runs) = mark b run ++ spread runs

-- Every character from a position on, with whether its position is among the indices.
unfoldable pub marked_from : ℕ → List ℕ → List Char → List (Char × Bool)
unfolding any
marked_from position indices [] = []
marked_from position indices (c ∷ cs) =
    (c, any (λ i. i == position) indices) ∷ marked_from (suc position) indices cs

unfoldable pub is_increasing : List ℕ → Bool
unfolding all
is_increasing [] = true
is_increasing (i ∷ is) = all (ltb i) is && is_increasing is

mark-append : (b : Bool) (xs ys : List Char) → mark b (xs ++ ys) ≡ mark b xs ++ mark b ys
mark-append b [] ys = refl
mark-append b (x ∷ xs) ys = ap (λ ms. (x, b) ∷ ms) (mark-append b xs ys)

is_increasing-skip_below :
    (p : ℕ) (is : List ℕ) → is_increasing is ≡ true → is_increasing (skip_below p is) ≡ true
unfolding is_increasing skip_below
is_increasing-skip_below p [] h = refl
is_increasing-skip_below p (i ∷ is) h = ground (arith, is_increasing-skip_below p is)

any-skip_below :
    (p q : ℕ) (is : List ℕ) → p ≤ q → any (λ i. i == q) (skip_below p is) ≡ any (λ i. i == q) is
unfolding any skip_below
any-skip_below p q [] h = refl
any-skip_below p q (i ∷ is) h = ground (arith, any-skip_below p q is)

marked_from-skip_below :
    (p q : ℕ) (is : List ℕ) (cs : List Char)
    → p ≤ q
    → marked_from q (skip_below p is) cs ≡ marked_from q is cs
unfolding marked_from
marked_from-skip_below p q is [] h = refl
marked_from-skip_below p q is (c ∷ cs) h =
    rw (any-skip_below p q is h, marked_from-skip_below p (suc q) is cs (omega arith)) refl

any_above : (p i : ℕ) (is : List ℕ) → all (ltb i) is ≡ true → p ≤ i → any (λ j. j == p) is ≡ false
unfolding all any
any_above p i [] h k = refl
any_above p i (j ∷ is) h k = ground (arith, any_above p i is)

stands_at-skip_below :
    (p : ℕ) (is : List ℕ)
    → is_increasing is ≡ true
    → stands_at p (skip_below p is) ≡ any (λ i. i == p) is
unfolding is_increasing skip_below any
stands_at-skip_below p [] h = refl
stands_at-skip_below p (i ∷ is) h = ground (arith, stands_at-skip_below p is, any_above p i is)

mark-goes_on :
    (run : List Char) (here matched : Bool) (c : Char)
    → goes_on run here matched ≡ true
    → mark here (run ++ c ∷ []) ≡ mark matched run ++ (c, here) ∷ []
mark-goes_on [] here matched c h = refl
mark-goes_on (d ∷ run) true true c h = mark-append true (d ∷ run) (c ∷ [])
mark-goes_on (d ∷ run) false false c h = mark-append false (d ∷ run) (c ∷ [])
mark-goes_on (d ∷ run) true false c h = absurd (cc h)
mark-goes_on (d ∷ run) false true c h = absurd (cc h)

spread-runs_from :
    (p : ℕ) (run : List Char) (matched : Bool) (is : List ℕ) (cs : List Char)
    → is_increasing is ≡ true
    → spread (runs_from p run matched is cs) ≡ mark matched run ++ marked_from p is cs
unfolding spread runs_from marked_from
spread-runs_from p [] matched is [] h = refl
spread-runs_from p (c ∷ run) matched is [] h = refl
spread-runs_from p run matched is (c ∷ cs) h =
    let left = skip_below p is in
    let here = stands_at p left in
    let sorted = is_increasing-skip_below p is h in
    let flag = ap (λ b. (c, b) ∷ marked_from (suc p) is cs) (stands_at-skip_below p is h) in
    let after = marked_from-skip_below p (suc p) is cs (omega arith) in
    elim (Bool-cases (goes_on run here matched)) [
      | inl e ↦ rw e (
          spread-runs_from (suc p) (run ++ c ∷ []) here left cs sorted
          ∙ ap (λ ms. ms ++ marked_from (suc p) left cs) (mark-goes_on run here matched c e)
          ∙ append_assoc (mark matched run) ((c, here) ∷ []) (marked_from (suc p) left cs)
          ∙ ap (λ ms. mark matched run ++ (c, here) ∷ ms) after
          ∙ ap (λ ms. mark matched run ++ ms) flag)
      | inr e ↦ rw e (
          ap (λ ms. mark matched run ++ ms)
            (spread-runs_from (suc p) (c ∷ []) here left cs sorted
              ∙ ap (λ ms. (c, here) ∷ ms) after
              ∙ flag))
    ]

-- The runs of a title, put one after the other, are the title, and the characters of a run are marked
-- just where their positions are among the indices, where the indices increase.
pub spread-title_runs :
    (title : List Char) (indices : List ℕ)
    → is_increasing indices ≡ true
    → spread (title_runs title indices) ≡ marked_from 0 indices title
unfolding title_runs
spread-title_runs title indices h = spread-runs_from 0 [] false indices title h
