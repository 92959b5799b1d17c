-- ===== src/State/Invariant/Accounts/Basics.antt =====
-- src/core/state.rs: the account of the data and the bounds of the usage table, kept by the basic steps.
use cosmic_pass.Base.{
  [], refl, Bool, true, false, ◌≤◌, length, decide, string_discrete, ℕ, ◌≡◌, String, Option, some,
  none, List, arith,
}
use cosmic_pass.Base.Int.{ℤ}
use cosmic_pass.Base.Unicode.{Unicode}
use cosmic_pass.Usage.Table.{max_records}
use cosmic_pass.Usage.Recent.{is_distinct}
use cosmic_pass.Usage.Recorded.{is_distinct-prune}
use cosmic_pass.Usage.Capacity.{length-prune}
use cosmic_pass.Domain.Items.{AccountId, ItemKey, ItemSummary, Listing}
use cosmic_pass.Pass.Error.{PassError, Result}
use cosmic_pass.Actions.Rows.{CopySource}
use cosmic_pass.Search.Index.{Matcher}
use cosmic_pass.State.Types.{SessionState, Model}
use cosmic_pass.State.View.{
  notify, leave_mode, cancel_pending, recompute_results, put_away, hide, request_refresh, show,
  move_selection, drop_stale_reveal, install, reselect, replace_items,
}
use cosmic_pass.State.Session.{wipe, clear_data, session_error, signed_in}
use cosmic_pass.State.Copy.{start_copy, copy_with, activate_action}
use cosmic_pass.State.Reveal.{reveal_fetched, totp_fetched, tick}

-- Whether the account of the data is the one that is signed in, if one is.
abbrev pub is_owned : SessionState → Option AccountId → Bool
is_owned (SessionState.signed_in a) (some b) = decide (string_discrete b a)
is_owned (SessionState.signed_in a) none = false
is_owned _ account = true

pub record IsAccounted (m : Model) : Type 0 where
  pub owned : is_owned m.session m.data_account ≡ true
  pub capped : length m.usage.records ≤ max_records
  pub distinct : is_distinct m.usage.records ≡ true

pub is_distinct-empty : is_distinct [] ≡ true
unfolding is_distinct
is_distinct-empty = refl

pub notify-IsAccounted : (m : Model) (t : String) → IsAccounted m → IsAccounted (notify m t).0
unfolding notify
notify-IsAccounted m t v = ground arith

pub request_refresh-IsAccounted : (m : Model) → IsAccounted m → IsAccounted (request_refresh m).0
unfolding request_refresh
request_refresh-IsAccounted m v = ground arith

pub show-IsAccounted : (m : Model) (now : ℤ) → IsAccounted m → IsAccounted (show m now).0
unfolding show request_refresh
show-IsAccounted m now v = ground arith

pub hide-IsAccounted : (mt : Matcher) (m : Model) → IsAccounted m → IsAccounted (hide mt m).0
unfolding hide recompute_results put_away leave_mode cancel_pending
hide-IsAccounted mt m v = ground arith

pub session_error-IsAccounted :
    (mt : Matcher) (m : Model) (e : PassError)
    → IsAccounted m
    → IsAccounted (session_error mt m e).0
unfolding session_error clear_data wipe recompute_results
session_error-IsAccounted mt m PassError.signed_out v = ground (arith, is_distinct-empty)
session_error-IsAccounted mt m _ v = ground arith

pub signed_in-IsAccounted :
    (mt : Matcher) (m : Model) (a : AccountId) → IsAccounted m → IsAccounted (signed_in mt m a).0
unfolding signed_in request_refresh clear_data wipe recompute_results decide
signed_in-IsAccounted mt m a v = ground (arith, is_distinct-empty)

pub replace_items-IsAccounted :
    (u : Unicode) (mt : Matcher) (m : Model) (l : Listing)
    → IsAccounted m
    → IsAccounted (replace_items u mt m l)
unfolding replace_items install recompute_results reselect drop_stale_reveal
replace_items-IsAccounted u mt m l v =
    ground (arith, length-prune l.items m.usage, is_distinct-prune l.items m.usage)

pub copy_with-IsAccounted :
    (m : Model) (pick : ItemSummary → Option CopySource) (t : String)
    → IsAccounted m
    → IsAccounted (copy_with m pick t).0
unfolding copy_with
copy_with-IsAccounted m pick t v = ground arith

pub move_selection-IsAccounted :
    (m : Model) (d : ℤ) → IsAccounted m → IsAccounted (move_selection m d).0
unfolding move_selection
move_selection-IsAccounted m d v = ground arith

pub reveal_fetched-IsAccounted :
    (m : Model) (key : ItemKey) (i g : ℕ) (r : Result String)
    → IsAccounted m
    → IsAccounted (reveal_fetched m key i g r).0
unfolding reveal_fetched
reveal_fetched-IsAccounted m key i g r v = ground arith

pub totp_fetched-IsAccounted :
    (m : Model) (key : ItemKey) (r : Result (List (String × String))) (now : ℤ)
    → IsAccounted m
    → IsAccounted (totp_fetched m key r now).0
unfolding totp_fetched
totp_fetched-IsAccounted m key r now v = ground arith

pub tick-IsAccounted : (m : Model) (now : ℤ) → IsAccounted m → IsAccounted (tick m now).0
unfolding tick
tick-IsAccounted m now v = ground arith

pub start_copy-IsAccounted :
    (m : Model) (key : ItemKey) (s : CopySource)
    → IsAccounted m
    → IsAccounted (start_copy m key s).0
unfolding start_copy
start_copy-IsAccounted m key s v = ground arith

pub activate_action-IsAccounted :
    (m : Model) (i : Option ℕ) → IsAccounted m → IsAccounted (activate_action m i).0
unfolding activate_action
activate_action-IsAccounted m i v = ground arith
