-- ===== src/State/Window/Parts.antt =====
-- src/core/state.rs: each handler that update calls tells the window what the model says.
use cosmic_pass.Base.{
  ℕ, ◌≡◌, refl, String, Bool, true, false, Option, some, none, List, [], ◌∷◌, arith,
}
use cosmic_pass.Base.Int.{ℤ}
use cosmic_pass.Base.Unicode.{Unicode}
use cosmic_pass.Config.Types.{Preferences, Action, KeyChord, insert, show_chord, action_label}
use cosmic_pass.Config.Validate.{conflict}
use cosmic_pass.Domain.Items.{AccountId, ItemKey, ItemSummary, Listing}
use cosmic_pass.Pass.Error.{PassError, Result, ok, err, to_string}
use cosmic_pass.Actions.Rows.{CopySource}
use cosmic_pass.Search.Index.{Matcher}
use cosmic_pass.State.Types.{SessionState, Model, Effect, Mode, PendingFetch, Outcome}
use cosmic_pass.State.View.{
  notify, leave_mode, cancel_pending, recompute_results, put_away, hide, request_refresh, show,
  move_selection, drop_stale_reveal, install, reselect, replace_items,
}
use cosmic_pass.State.Session.{wipe, clear_data, session_error, signed_in}
use cosmic_pass.State.Copy.{
  notified, start_copy, copy_with, activate_action, copy_failed, copy_settled, take_pending,
  copy_confirmed,
}
use cosmic_pass.State.Reveal.{toggle_in, reveal_fetched, totp_fetched, tick}
use cosmic_pass.State.Settings.{apply_prefs, save_prefs, bind_chord, capture_in}
use Prim.Native.String.{◌++◌}

-- What a list of effects tells the window, in order: to show itself or to hide.
abbrev pub window_asks : List Effect → List Bool
window_asks [] = []
window_asks (Effect.show_window ∷ fx) = true ∷ window_asks fx
window_asks (Effect.hide_window ∷ fx) = false ∷ window_asks fx
window_asks (_ ∷ fx) = window_asks fx

-- Whether the window is up after at most one such effect; more are refused.
abbrev pub told : Bool → List Bool → Option Bool
told up [] = some up
told up (ask ∷ []) = some ask
told up (ask ∷ more ∷ asks) = none

abbrev pub Tells : Bool → Outcome → Type 0
Tells up o = told up (window_asks o.1) ≡ some o.0.view.visible

pub notify-Tells : (m : Model) (t : String) → (notify m t).0.view.visible ≡ m.view.visible
unfolding notify
notify-Tells m t = refl

pub request_refresh-Tells : (m : Model) → Tells m.view.visible (request_refresh m)
unfolding request_refresh
request_refresh-Tells m = ground arith

pub show-Tells : (m : Model) (now : ℤ) → Tells m.view.visible (show m now)
unfolding show request_refresh
show-Tells m now = ground arith

pub hide-Tells : (mt : Matcher) (m : Model) → Tells m.view.visible (hide mt m)
unfolding hide recompute_results put_away leave_mode cancel_pending
hide-Tells mt m = ground arith

pub clear_data-Tells : (mt : Matcher) (m : Model) → (clear_data mt m).view.visible ≡ m.view.visible
unfolding clear_data wipe recompute_results
clear_data-Tells mt m = ground arith

pub session_error-Tells :
    (mt : Matcher) (m : Model) (e : PassError) → Tells m.view.visible (session_error mt m e)
unfolding session_error
session_error-Tells mt m PassError.signed_out =
    ground (arith, clear_data-Tells mt (record m { session = SessionState.signed_out }))
session_error-Tells mt m _ = ground arith

pub signed_in-Tells :
    (mt : Matcher) (m : Model) (a : AccountId) → Tells m.view.visible (signed_in mt m a)
unfolding signed_in request_refresh
signed_in-Tells mt m a = ground (arith, clear_data-Tells mt m)

pub replace_items-Tells :
    (u : Unicode) (mt : Matcher) (m : Model) (l : Listing)
    → (replace_items u mt m l).view.visible ≡ m.view.visible
unfolding replace_items install recompute_results reselect drop_stale_reveal
replace_items-Tells u mt m l = ground arith

pub copy_with-Tells :
    (m : Model) (pick : ItemSummary → Option CopySource) (t : String)
    → Tells m.view.visible (copy_with m pick t)
unfolding copy_with
copy_with-Tells m pick t = ground arith

pub move_selection-Tells : (m : Model) (d : ℤ) → Tells m.view.visible (move_selection m d)
unfolding move_selection
move_selection-Tells m d = ground arith

pub reveal_fetched-Tells :
    (m : Model) (key : ItemKey) (i g : ℕ) (r : Result String)
    → Tells m.view.visible (reveal_fetched m key i g r)
unfolding reveal_fetched
reveal_fetched-Tells m key i g r = ground arith

pub totp_fetched-Tells :
    (m : Model) (key : ItemKey) (r : Result (List (String × String))) (now : ℤ)
    → Tells m.view.visible (totp_fetched m key r now)
unfolding totp_fetched
totp_fetched-Tells m key r now = ground arith

pub tick-Tells : (m : Model) (now : ℤ) → Tells m.view.visible (tick m now)
unfolding tick
tick-Tells m now = ground arith

pub start_copy-Tells :
    (m : Model) (key : ItemKey) (s : CopySource) → Tells m.view.visible (start_copy m key s)
unfolding start_copy
start_copy-Tells m key s = ground arith

pub activate_action-Tells : (m : Model) (i : Option ℕ) → Tells m.view.visible (activate_action m i)
unfolding activate_action
activate_action-Tells m i = ground arith

pub copy_settled-Tells :
    (mt : Matcher) (m : Model) (key : ItemKey) (p : PendingFetch) (r : Result String) (now : ℤ)
    → Tells m.view.visible (copy_settled mt m key p r now)
unfolding copy_settled copy_failed
copy_settled-Tells mt m key p (ok value) now = ground arith
copy_settled-Tells mt m key p (err PassError.cancelled) now = ground arith
copy_settled-Tells mt m key p (err PassError.not_found) now =
    ground (arith, request_refresh-Tells (notify m "Item no longer exists").0)
copy_settled-Tells mt m key p (err PassError.field_missing) now = ground arith
copy_settled-Tells mt m key p (err e) now =
    ground (arith, session_error-Tells mt (notify m (to_string e)).0 e)

pub take_pending-Tells :
    (mt : Matcher) (m : Model) (o : Option PendingFetch) (key : ItemKey) (r : Result String)
    (now : ℤ)
    → Tells m.view.visible (take_pending mt m o key r now)
unfolding take_pending
take_pending-Tells mt m none key r now = ground arith
take_pending-Tells mt m (some p) key r now = ground (
  arith,
  copy_settled-Tells mt (record m { view = record (m.view) { pending = none } }) key p r now,
)

pub save_prefs-Tells :
    (u : Unicode) (mt : Matcher) (m : Model) (p : Preferences)
    → Tells m.view.visible (save_prefs u mt m p)
unfolding save_prefs apply_prefs recompute_results
save_prefs-Tells u mt m p = ground arith

pub notified-Tells : (m : Model) (t : String) → Tells m.view.visible (notified m t)
unfolding notify
notified-Tells m t = ground arith

pub bind_chord-Tells :
    (u : Unicode) (mt : Matcher) (m : Model) (a : Action) (c : KeyChord) (o : Option Action)
    → Tells m.view.visible (bind_chord u mt m a c o)
unfolding bind_chord
bind_chord-Tells u mt m a c (some other) =
    notified-Tells m (show_chord u c ++ " is already used by “" ++ action_label other ++ "”")
bind_chord-Tells u mt m a c none =
    save_prefs-Tells u mt (record m { view = record (m.view) { mode = Mode.preferences none } })
      (record (m.prefs) { shortcuts = insert a c m.prefs.shortcuts })

pub copy_confirmed-Tells : (mt : Matcher) (m : Model) → Tells m.view.visible (copy_confirmed mt m)
unfolding copy_confirmed
copy_confirmed-Tells mt m = ground (arith, hide-Tells mt m)

pub capture_in-Tells :
    (u : Unicode) (mt : Matcher) (m : Model) (mode : Mode) (c : KeyChord)
    → Tells m.view.visible (capture_in u mt m mode c)
unfolding capture_in
capture_in-Tells u mt m (Mode.preferences (some a)) c =
    bind_chord-Tells u mt m a c (conflict u m.prefs a c)
capture_in-Tells u mt m (Mode.preferences none) c = ground arith
capture_in-Tells u mt m Mode.list c = ground arith
capture_in-Tells u mt m (Mode.actions k i) c = ground arith

pub toggle_in-Tells : (m : Model) (mode : Mode) → Tells m.view.visible (toggle_in m mode)
unfolding toggle_in
toggle_in-Tells m Mode.list = ground arith
toggle_in-Tells m (Mode.preferences r) = ground arith
toggle_in-Tells m (Mode.actions key i) = ground arith
