-- ===== src/State/Refresh/Parts.antt =====
-- src/core/state.rs: each handler that update calls keeps the count of refreshes.
use cosmic_pass.Base.{
  ℕ, suc, ◌+◌, ◌≡◌, refl, String, Option, some, none, List, [], ◌∷◌, arith, if◌then◌else◌,
}
use cosmic_pass.Base.Int.{ℤ}
use cosmic_pass.Base.Unicode.{Unicode}
use cosmic_pass.Config.Types.{Preferences, Action, KeyChord, insert, show_chord, action_label}
use cosmic_pass.Config.Validate.{conflict}
use cosmic_pass.Domain.Items.{AccountId, ItemKey, ItemSummary, Listing}
use cosmic_pass.Pass.Error.{PassError, Result, ok, err, to_string}
use cosmic_pass.Actions.Rows.{CopySource}
use cosmic_pass.Search.Index.{Matcher}
use cosmic_pass.State.Types.{SessionState, Model, Msg, Effect, Mode, PendingFetch, Outcome}
use cosmic_pass.State.View.{
  notify, leave_mode, cancel_pending, recompute_results, put_away, hide, request_refresh, show,
  move_selection, drop_stale_reveal, install, reselect, replace_items,
}
use cosmic_pass.State.Session.{wipe, clear_data, session_error, signed_in}
use cosmic_pass.State.Copy.{
  notified, start_copy, copy_with, activate_action, copy_failed, copy_settled, take_pending,
  copy_confirmed,
}
use cosmic_pass.State.Reveal.{toggle_in, reveal_fetched, totp_fetched, tick}
use cosmic_pass.State.Settings.{apply_prefs, save_prefs, bind_chord, capture_in}
use Prim.Native.String.{◌++◌}

-- How many refreshes a list of effects asks for.
abbrev pub refreshes : List Effect → ℕ
refreshes [] = 0
refreshes (Effect.refresh ∷ fx) = suc (refreshes fx)
refreshes (_ ∷ fx) = refreshes fx

-- One for a refresh in flight.
abbrev pub in_flight : Model → ℕ
in_flight m = if m.data_state.refreshing then 1 else 0

-- What is left in flight once a message has arrived: an answer ends the refresh.
abbrev pub unanswered : Msg → ℕ → ℕ
unanswered (Msg.data_loaded listing) n = 0
unanswered (Msg.refresh_failed e) n = 0
unanswered _ n = n

abbrev pub Balanced : ℕ → Outcome → Type 0
Balanced n o = in_flight o.0 ≡ n + refreshes o.1

pub notify_balance : (m : Model) (t : String) → in_flight (notify m t).0 ≡ in_flight m
unfolding notify
notify_balance m t = refl

pub request_refresh_balance : (m : Model) → Balanced (in_flight m) (request_refresh m)
unfolding request_refresh
request_refresh_balance m = ground arith

pub show_balance : (m : Model) (now : ℤ) → Balanced (in_flight m) (show m now)
unfolding show request_refresh
show_balance m now = ground arith

pub hide_balance : (mt : Matcher) (m : Model) → Balanced (in_flight m) (hide mt m)
unfolding hide recompute_results put_away leave_mode cancel_pending
hide_balance mt m = ground arith

pub clear_data_balance : (mt : Matcher) (m : Model) → in_flight (clear_data mt m) ≡ in_flight m
unfolding clear_data wipe recompute_results
clear_data_balance mt m = ground arith

pub session_error_balance :
    (mt : Matcher) (m : Model) (e : PassError) → Balanced (in_flight m) (session_error mt m e)
unfolding session_error
session_error_balance mt m PassError.signed_out =
    ground (arith, clear_data_balance mt (record m { session = SessionState.signed_out }))
session_error_balance mt m _ = ground arith

pub signed_in_balance :
    (mt : Matcher) (m : Model) (a : AccountId) → Balanced (in_flight m) (signed_in mt m a)
unfolding signed_in request_refresh
signed_in_balance mt m a = ground (arith, clear_data_balance mt m)

pub replace_items_balance :
    (u : Unicode) (mt : Matcher) (m : Model) (l : Listing)
    → in_flight (replace_items u mt m l) ≡ in_flight m
unfolding replace_items install recompute_results reselect drop_stale_reveal
replace_items_balance u mt m l = ground arith

pub copy_with_balance :
    (m : Model) (pick : ItemSummary → Option CopySource) (t : String)
    → Balanced (in_flight m) (copy_with m pick t)
unfolding copy_with
copy_with_balance m pick t = ground arith

pub move_selection_balance : (m : Model) (d : ℤ) → Balanced (in_flight m) (move_selection m d)
unfolding move_selection
move_selection_balance m d = ground arith

pub reveal_fetched_balance :
    (m : Model) (key : ItemKey) (i g : ℕ) (r : Result String)
    → Balanced (in_flight m) (reveal_fetched m key i g r)
unfolding reveal_fetched
reveal_fetched_balance m key i g r = ground arith

pub totp_fetched_balance :
    (m : Model) (key : ItemKey) (r : Result (List (String × String))) (now : ℤ)
    → Balanced (in_flight m) (totp_fetched m key r now)
unfolding totp_fetched
totp_fetched_balance m key r now = ground arith

pub tick_balance : (m : Model) (now : ℤ) → Balanced (in_flight m) (tick m now)
unfolding tick
tick_balance m now = ground arith

pub start_copy_balance :
    (m : Model) (key : ItemKey) (s : CopySource) → Balanced (in_flight m) (start_copy m key s)
unfolding start_copy
start_copy_balance m key s = ground arith

pub activate_action_balance :
    (m : Model) (i : Option ℕ) → Balanced (in_flight m) (activate_action m i)
unfolding activate_action
activate_action_balance m i = ground arith

pub copy_settled_balance :
    (mt : Matcher) (m : Model) (key : ItemKey) (p : PendingFetch) (r : Result String) (now : ℤ)
    → Balanced (in_flight m) (copy_settled mt m key p r now)
unfolding copy_settled copy_failed
copy_settled_balance mt m key p (ok value) now = ground arith
copy_settled_balance mt m key p (err PassError.cancelled) now = ground arith
copy_settled_balance mt m key p (err PassError.not_found) now =
    ground (arith, request_refresh_balance (notify m "Item no longer exists").0)
copy_settled_balance mt m key p (err PassError.field_missing) now = ground arith
copy_settled_balance mt m key p (err e) now =
    ground (arith, session_error_balance mt (notify m (to_string e)).0 e)

pub take_pending_balance :
    (mt : Matcher) (m : Model) (o : Option PendingFetch) (key : ItemKey) (r : Result String)
    (now : ℤ)
    → Balanced (in_flight m) (take_pending mt m o key r now)
unfolding take_pending
take_pending_balance mt m none key r now = ground arith
take_pending_balance mt m (some p) key r now = ground (
  arith,
  copy_settled_balance mt (record m { view = record (m.view) { pending = none } }) key p r now,
)

pub save_prefs_balance :
    (u : Unicode) (mt : Matcher) (m : Model) (p : Preferences)
    → Balanced (in_flight m) (save_prefs u mt m p)
unfolding save_prefs apply_prefs recompute_results
save_prefs_balance u mt m p = ground arith

pub notified_balance : (m : Model) (t : String) → Balanced (in_flight m) (notified m t)
unfolding notify
notified_balance m t = ground arith

pub bind_chord_balance :
    (u : Unicode) (mt : Matcher) (m : Model) (a : Action) (c : KeyChord) (o : Option Action)
    → Balanced (in_flight m) (bind_chord u mt m a c o)
unfolding bind_chord
bind_chord_balance u mt m a c (some other) =
    notified_balance m (show_chord u c ++ " is already used by “" ++ action_label other ++ "”")
bind_chord_balance u mt m a c none =
    save_prefs_balance u mt (record m { view = record (m.view) { mode = Mode.preferences none } })
      (record (m.prefs) { shortcuts = insert a c m.prefs.shortcuts })

pub copy_confirmed_balance :
    (mt : Matcher) (m : Model) → Balanced (in_flight m) (copy_confirmed mt m)
unfolding copy_confirmed
copy_confirmed_balance mt m = ground (arith, hide_balance mt m)

pub capture_in_balance :
    (u : Unicode) (mt : Matcher) (m : Model) (mode : Mode) (c : KeyChord)
    → Balanced (in_flight m) (capture_in u mt m mode c)
unfolding capture_in
capture_in_balance u mt m (Mode.preferences (some a)) c =
    bind_chord_balance u mt m a c (conflict u m.prefs a c)
capture_in_balance u mt m (Mode.preferences none) c = ground arith
capture_in_balance u mt m Mode.list c = ground arith
capture_in_balance u mt m (Mode.actions k i) c = ground arith

pub toggle_in_balance : (m : Model) (mode : Mode) → Balanced (in_flight m) (toggle_in m mode)
unfolding toggle_in
toggle_in_balance m Mode.list = ground arith
toggle_in_balance m (Mode.preferences r) = ground arith
toggle_in_balance m (Mode.actions key i) = ground arith
