-- ===== src/State/Invariant/Runs.antt =====
-- The invariants over whole runs from a new state, and what they mean for what is shown.
use cosmic_pass.Base.{
  zero, ℕ, suc, ◌<◌, ◌≡◌, refl, true, some, List, [], ◌∷◌, arith, get_elem?, get_elem?_of_lt, all,
  length, ltb→lt,
}
use cosmic_pass.Base.Int.{ℤ}
use cosmic_pass.Base.Unicode.{Unicode}
use cosmic_pass.Config.Types.{Preferences}
use cosmic_pass.Domain.Items.{ItemSummary}
use cosmic_pass.Search.Index.{Matcher, ResultRow}
use cosmic_pass.Search.Rows.{rows_within}
use cosmic_pass.State.Types.{Model, Msg, new_model}
use cosmic_pass.State.Query.{selected_item}
use cosmic_pass.State.Update.{update, run}
use cosmic_pass.State.Invariant.Rows.Parts.{IsIndexed}
use cosmic_pass.State.Invariant.Rows.Kept.{update-IsIndexed}
use cosmic_pass.State.Invariant.Reveal.Parts.{IsMasked}
use cosmic_pass.State.Invariant.Reveal.Kept.{update-IsMasked}

run_from-IsIndexed :
    (u : Unicode) (mt : Matcher) (m : Model) (msgs : List (Msg × ℤ))
    → IsIndexed m
    → IsIndexed (run u mt m msgs)
unfolding run
run_from-IsIndexed u mt m [] v = v
run_from-IsIndexed u mt m ((msg, now) ∷ rest) v =
    run_from-IsIndexed u mt (update u mt m msg now).0 rest (update-IsIndexed u mt m msg now v)

-- After any messages from a new state: the index has an entry for each item, every result row stands
-- for an item, there are no more rows than the preferences allow, and the selected row is one of
-- them (the first, if there is none).
pub run-IsIndexed :
    (u : Unicode) (mt : Matcher) (prefs : Preferences) (msgs : List (Msg × ℤ))
    → IsIndexed (run u mt (new_model prefs) msgs)
unfolding new_model rows_within
run-IsIndexed u mt prefs msgs =
    run_from-IsIndexed u mt (new_model prefs) msgs
      (record { indexed = refl; within = refl; capped = omega arith; in_rows = omega arith })

run_from-IsMasked :
    (u : Unicode) (mt : Matcher) (m : Model) (msgs : List (Msg × ℤ))
    → IsMasked m
    → IsMasked (run u mt m msgs)
unfolding run
run_from-IsMasked u mt m [] v = v
run_from-IsMasked u mt m ((msg, now) ∷ rest) v =
    run_from-IsMasked u mt (update u mt m msg now).0 rest (update-IsMasked u mt m msg now v)

-- After any messages from a new state: a secret or a code is revealed, or awaited, only in the
-- action list; a revealed field is one that the loaded item of its key has, unedited, at its
-- position; and a reveal's token is kept only while its value is awaited.
pub run-IsMasked :
    (u : Unicode) (mt : Matcher) (prefs : Preferences) (msgs : List (Msg × ℤ))
    → IsMasked (run u mt (new_model prefs) msgs)
unfolding new_model
run-IsMasked u mt prefs msgs =
    run_from-IsMasked u mt (new_model prefs) msgs
      (record { hidden = refl; pinned = refl; waiting = refl })

pub row_within :
    (n i : ℕ) (rows : List ResultRow) {row : ResultRow}
    → rows_within n rows ≡ true
    → get_elem? rows i ≡ some row
    → row.item < n
unfolding rows_within all get_elem?
row_within n i [] h e = cc
row_within n zero (r ∷ rows) {row} h e = ltb→lt row.item n (ground arith)
row_within n (suc i) (r ∷ rows) h e = row_within n i rows (ground arith) e

selected_item_found :
    (m : Model)
    → IsIndexed m
    → 0 < length m.view.results
    → (item : ItemSummary) × (selected_item m ≡ some item)
unfolding selected_item
selected_item_found m v h =
    let (row, at) = get_elem?_of_lt m.view.results m.view.selected (omega (arith, v.in_rows)) in
    let (item, found) =
      get_elem?_of_lt m.data_state.items row.item
        (row_within (length m.data_state.items) m.view.selected m.view.results v.within at) in
    (item, rw (at, selected_item) found)

-- After any messages from a new state, if there are result rows then the selected one stands for
-- an item.
run_selects :
    (u : Unicode) (mt : Matcher) (prefs : Preferences) (msgs : List (Msg × ℤ))
    → 0 < length (run u mt (new_model prefs) msgs).view.results
    → (item : ItemSummary) × (selected_item (run u mt (new_model prefs) msgs) ≡ some item)
run_selects u mt prefs msgs h =
    selected_item_found (run u mt (new_model prefs) msgs) (run-IsIndexed u mt prefs msgs) h
