-- ===== src/State/Invariant/Rows/Parts.antt =====
-- The parts of the reducer that change the view and the session keep the rows in step.
use cosmic_pass.Base.{
  ℕ, suc, ◌-◌, ◌≤◌, ◌≡◌, String, true, Option, some, none, arith, length, inl, inr, Option-cases,
  position_lem, get_elem?_lt, and_then, unwrap_or, map_option,
}
use cosmic_pass.Base.Int.{ℤ}
use cosmic_pass.Base.Unicode.{Unicode}
use cosmic_pass.Domain.Items.{Listing, CacheFile, AccountId, ItemKey}
use cosmic_pass.Pass.Error.{PassError, Result, ok, err}
use cosmic_pass.Search.Index.{Matcher}
use cosmic_pass.Search.Rows.{rows_within, length-build, search_rows_within, length-search_rows}
use cosmic_pass.State.Types.{SessionState, Model}
use cosmic_pass.Usage.Table.{recency}
use cosmic_pass.State.Query.{selected_item}
use cosmic_pass.State.View.{
  notify, clear_revealed, leave_mode, cancel_pending, recompute_results, hide, request_refresh,
  show, move_selection, drop_stale_reveal, replace_items, row_of, reselect, install, put_away,
}
use cosmic_pass.State.Session.{
  wipe, clear_data, session_error, signed_in, from_file, load_file, session_probed,
}

pub record IsIndexed (m : Model) : Type 0 where
  pub indexed : length m.index ≡ length m.data_state.items
  pub within : rows_within (length m.data_state.items) m.view.results ≡ true
  pub capped : length m.view.results ≤ m.prefs.max_results
  pub in_rows : m.view.selected ≤ length m.view.results - 1

pub clear_revealed-IsIndexed : (m : Model) → IsIndexed m → IsIndexed (clear_revealed m)
unfolding clear_revealed
clear_revealed-IsIndexed m v = ground arith

pub notify-IsIndexed : (m : Model) (t : String) → IsIndexed m → IsIndexed (notify m t).0
unfolding notify
notify-IsIndexed m t v = ground arith

pub cancel_pending-IsIndexed : (m : Model) → IsIndexed m → IsIndexed (cancel_pending m)
unfolding cancel_pending
cancel_pending-IsIndexed m v = ground arith

pub request_refresh-IsIndexed : (m : Model) → IsIndexed m → IsIndexed (request_refresh m).0
unfolding request_refresh
request_refresh-IsIndexed m v = ground arith

pub recompute_results-IsIndexed :
    (mt : Matcher) (m : Model)
    → length m.index ≡ length m.data_state.items
    → IsIndexed (recompute_results mt m)
unfolding recompute_results
recompute_results-IsIndexed mt m h = ground (
  arith,
  search_rows_within mt m.index m.view.query (recency m.usage) m.data_state.items
      m.prefs.max_results,
  length-search_rows mt m.index m.view.query (recency m.usage) m.data_state.items
      m.prefs.max_results,
)

pub leave_mode-IsIndexed : (m : Model) → IsIndexed m → IsIndexed (leave_mode m)
unfolding leave_mode
leave_mode-IsIndexed m v = ground arith

pub drop_stale_reveal-IsIndexed : (m : Model) → IsIndexed m → IsIndexed (drop_stale_reveal m)
unfolding drop_stale_reveal
drop_stale_reveal-IsIndexed m v = ground arith

row_of-lt :
    (m : Model) (key : ItemKey) (i : ℕ) → row_of m key ≡ some i → suc i ≤ length m.view.results
unfolding row_of
row_of-lt m key i h =
    let (row, found, same) = position_lem _ m.view.results i h in
    get_elem?_lt m.view.results i found

found_row-le :
    (m : Model) (key : Option ItemKey)
    → unwrap_or (and_then key (row_of m)) 0 ≤ length m.view.results - 1
found_row-le m none = omega arith
found_row-le m (some key) = elim (Option-cases (row_of m key)) [
  | inl e ↦ rw e (omega arith)
  | inr (i, e) ↦ rw e (omega (arith, row_of-lt m key i e))
]

pub reselect-IsIndexed :
    (m : Model) (key : Option ItemKey) → IsIndexed m → IsIndexed (reselect m key)
unfolding reselect
reselect-IsIndexed m key v = ground (arith, found_row-le m key)

pub replace_items-IsIndexed :
    (u : Unicode) (mt : Matcher) (m : Model) (l : Listing) → IsIndexed (replace_items u mt m l)
unfolding replace_items install
replace_items-IsIndexed u mt m l =
    drop_stale_reveal-IsIndexed
      (reselect (recompute_results mt (install u m l)) (map_option (λ i. i.key) (selected_item m)))
      (reselect-IsIndexed _ _
        (recompute_results-IsIndexed mt (install u m l) (length-build u l.items)))

pub hide-IsIndexed : (mt : Matcher) (m : Model) → IsIndexed m → IsIndexed (hide mt m).0
unfolding hide put_away
hide-IsIndexed mt m v =
    recompute_results-IsIndexed mt (put_away m)
      (leave_mode-IsIndexed _ (cancel_pending-IsIndexed m v)).indexed

pub show-IsIndexed : (m : Model) (now : ℤ) → IsIndexed m → IsIndexed (show m now).0
unfolding show
show-IsIndexed m now v = ground arith

pub move_selection-IsIndexed : (m : Model) (d : ℤ) → IsIndexed m → IsIndexed (move_selection m d).0
unfolding move_selection
move_selection-IsIndexed m d v = ground arith

pub clear_data-IsIndexed : (mt : Matcher) (m : Model) → IsIndexed (clear_data mt m)
unfolding clear_data wipe
clear_data-IsIndexed mt m = recompute_results-IsIndexed mt (wipe m) (ground arith)

pub session_error-IsIndexed :
    (mt : Matcher) (m : Model) (e : PassError) → IsIndexed m → IsIndexed (session_error mt m e).0
unfolding session_error
session_error-IsIndexed mt m PassError.signed_out v =
    clear_data-IsIndexed mt (record m { session = SessionState.signed_out })
session_error-IsIndexed mt m _ v = ground arith

pub signed_in-IsIndexed :
    (mt : Matcher) (m : Model) (a : AccountId) → IsIndexed m → IsIndexed (signed_in mt m a).0
unfolding signed_in
signed_in-IsIndexed mt m a v = ground (arith, clear_data-IsIndexed mt m)

pub load_file-IsIndexed :
    (u : Unicode) (mt : Matcher) (m : Model) (f : CacheFile)
    → IsIndexed m
    → IsIndexed (load_file u mt m f).0
unfolding load_file
load_file-IsIndexed u mt m f v = ground (
  arith,
  replace_items-IsIndexed u mt (from_file m f) (record { vaults = f.vaults; items = f.items }),
)

pub session_probed-IsIndexed :
    (mt : Matcher) (m : Model) (r : Result AccountId)
    → IsIndexed m
    → IsIndexed (session_probed mt m r).0
unfolding session_probed
session_probed-IsIndexed mt m (ok a) v = signed_in-IsIndexed mt m a v
session_probed-IsIndexed mt m (err e) v = ground (arith, session_error-IsIndexed mt m e v)
