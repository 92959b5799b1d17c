-- ===== src/View/Titles.antt =====
-- src/app/view/list.rs: `title_runs`, over the characters of a title.
use cosmic_pass.Base.{ℕ, suc, Bool, true, false, not, List, [], ◌∷◌, ◌++◌, if◌then◌else◌, ◌==◌, ltb}
use Prim.Native.Char.{Char}

-- The indices from the first that is not below a position.
unfoldable pub skip_below : ℕ → List ℕ → List ℕ
skip_below position [] = []
skip_below position (i ∷ is) =
    let rest = skip_below position is in if ltb i position then rest else i ∷ is

abbrev pub stands_at : ℕ → List ℕ → Bool
stands_at position [] = false
stands_at position (i ∷ is) = i == position

abbrev pub same : Bool → Bool → Bool
same true b = b
same false b = not b

-- Whether a run goes on: it has no character yet, or the next one matches as it does.
abbrev pub goes_on : List Char → Bool → Bool → Bool
goes_on [] here matched = true
goes_on (c ∷ cs) here matched = same here matched

abbrev last_run : List Char → Bool → List (List Char × Bool)
last_run [] matched = []
last_run (c ∷ cs) matched = (c ∷ cs, matched) ∷ []

-- The loop at a position, with the run that has begun and the indices that are left.
unfoldable pub runs_from : ℕ → List Char → Bool → List ℕ → List Char → List (List Char × Bool)
unfolding skip_below
runs_from position run matched indices [] = last_run run matched
runs_from position run matched indices (c ∷ cs) =
    let left = skip_below position indices in
    let here = stands_at position left in
    let on = runs_from (suc position) (run ++ c ∷ []) here left cs in
    let new = runs_from (suc position) (c ∷ []) here left cs in
    if goes_on run here matched then on else (run, matched) ∷ new

-- `title_runs`: the runs of characters that did and did not match.
unfoldable pub title_runs : List Char → List ℕ → List (List Char × Bool)
unfolding runs_from
title_runs title indices = runs_from 0 [] false indices title
