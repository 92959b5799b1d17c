-- ===== src/State/Invariant/Rows/Kept.antt =====
-- Every message keeps the result rows, the index and the selected row in step with the items.
use cosmic_pass.Base.{ℕ, String, Option, some, none, List, arith, decide, if_keeps}
use cosmic_pass.Base.Int.{ℤ}
use cosmic_pass.Base.Unicode.{Unicode}
use cosmic_pass.Config.Types.{Action, insert, Preferences, KeyChord, prefs_discrete}
use cosmic_pass.Config.Defaults.{default_prefs}
use cosmic_pass.Config.Validate.{validated, conflict}
use cosmic_pass.Domain.Items.{ItemSummary, ItemKey, key_discrete}
use cosmic_pass.Pass.Error.{PassError, Result, ok, err, to_string}
use cosmic_pass.Search.Index.{Matcher}
use cosmic_pass.State.Types.{Model, Msg, Mode, PendingFetch, Outcome}
use cosmic_pass.Actions.Rows.{CopySource}
use cosmic_pass.State.View.{notify}
use cosmic_pass.State.Session.{
  cache_loaded, refreshed, data_loaded, refresh_failed, startup, version_probed, start_login,
  login_line, login_finished,
}
use cosmic_pass.State.Copy.{
  start_copy, copy_with, activate_action, copy_failed, copy_settled, take_pending, copy_fetched,
  copy_finished,
}
use cosmic_pass.State.Reveal.{toggle_reveal, reveal_fetched, totp_fetched, tick}
use cosmic_pass.State.Settings.{
  adjusted, apply_prefs, save_prefs, bind_chord, capture_in, chord_captured, open_preferences,
  adjust_clipboard_clear, start_rebind, reset_shortcuts,
}
use cosmic_pass.State.Update.{escape, update}
use cosmic_pass.State.Invariant.Rows.Parts.{
  IsIndexed, notify-IsIndexed, cancel_pending-IsIndexed, request_refresh-IsIndexed,
  recompute_results-IsIndexed, leave_mode-IsIndexed, replace_items-IsIndexed, hide-IsIndexed,
  show-IsIndexed, move_selection-IsIndexed, session_error-IsIndexed, load_file-IsIndexed,
  session_probed-IsIndexed,
}

start_copy-IsIndexed :
    (m : Model) (key : ItemKey) (s : CopySource) → IsIndexed m → IsIndexed (start_copy m key s).0
unfolding start_copy
start_copy-IsIndexed m key s v = ground (arith, cancel_pending-IsIndexed m v)

copy_with-IsIndexed :
    (m : Model) (pick : ItemSummary → Option CopySource) (t : String)
    → IsIndexed m
    → IsIndexed (copy_with m pick t).0
unfolding copy_with
copy_with-IsIndexed m pick t v = ground arith

activate_action-IsIndexed :
    (m : Model) (i : Option ℕ) → IsIndexed m → IsIndexed (activate_action m i).0
unfolding activate_action
activate_action-IsIndexed m i v = ground arith

copy_failed-IsIndexed :
    (mt : Matcher) (m : Model) (e : PassError) → IsIndexed m → IsIndexed (copy_failed mt m e).0
unfolding copy_failed
copy_failed-IsIndexed mt m e v =
    session_error-IsIndexed mt (notify m (to_string e)).0 e (notify-IsIndexed m (to_string e) v)

copy_settled-IsIndexed :
    (mt : Matcher) (m : Model) (key : ItemKey) (p : PendingFetch) (r : Result String) (now : ℤ)
    → IsIndexed m
    → IsIndexed (copy_settled mt m key p r now).0
unfolding copy_settled
copy_settled-IsIndexed mt m key p (ok value) now v = ground arith
copy_settled-IsIndexed mt m key p (err PassError.cancelled) now v = v
copy_settled-IsIndexed mt m key p (err PassError.not_found) now v = ground arith
copy_settled-IsIndexed mt m key p (err PassError.field_missing) now v = ground arith
copy_settled-IsIndexed mt m key p (err e) now v = copy_failed-IsIndexed mt m e v

take_pending-IsIndexed :
    (mt : Matcher) (m : Model) (o : Option PendingFetch) (key : ItemKey) (r : Result String)
    (now : ℤ)
    → IsIndexed m
    → IsIndexed (take_pending mt m o key r now).0
unfolding take_pending
take_pending-IsIndexed mt m none key r now v = v
take_pending-IsIndexed mt m (some p) key r now v =
    if_keeps {A = Outcome} (λ o. IsIndexed o.0) (decide (key_discrete p.key key))
      (copy_settled-IsIndexed mt (record m { view = record (m.view) { pending = none } }) key p r
        now
        (record { indexed = v.indexed; within = v.within; capped = v.capped; in_rows = v.in_rows }))
      v

refresh_failed-IsIndexed :
    (mt : Matcher) (m : Model) (e : PassError) → IsIndexed m → IsIndexed (refresh_failed mt m e).0
unfolding refresh_failed
refresh_failed-IsIndexed mt m e v =
    session_error-IsIndexed mt _ e
      (record { indexed = v.indexed; within = v.within; capped = v.capped; in_rows = v.in_rows })

apply_prefs-IsIndexed :
    (mt : Matcher) (m : Model) (p : Preferences) → IsIndexed m → IsIndexed (apply_prefs mt m p)
unfolding apply_prefs
apply_prefs-IsIndexed mt m p v =
    ground (arith, recompute_results-IsIndexed mt (record m { prefs = p }) v.indexed)

save_prefs-IsIndexed :
    (u : Unicode) (mt : Matcher) (m : Model) (p : Preferences)
    → IsIndexed m
    → IsIndexed (save_prefs u mt m p).0
unfolding save_prefs
save_prefs-IsIndexed u mt m p v =
    if_keeps {A = Outcome} (λ o. IsIndexed o.0) (decide (prefs_discrete (validated u p) m.prefs)) v
      (apply_prefs-IsIndexed mt m (validated u p) v)

bind_chord-IsIndexed :
    (u : Unicode) (mt : Matcher) (m : Model) (a : Action) (c : KeyChord) (o : Option Action)
    → IsIndexed m
    → IsIndexed (bind_chord u mt m a c o).0
unfolding bind_chord
bind_chord-IsIndexed u mt m a c (some other) v = notify-IsIndexed m _ v
bind_chord-IsIndexed u mt m a c none v =
    save_prefs-IsIndexed u mt (record m { view = record (m.view) { mode = Mode.preferences none } })
      (record (m.prefs) { shortcuts = insert a c m.prefs.shortcuts })
      (record { indexed = v.indexed; within = v.within; capped = v.capped; in_rows = v.in_rows })

capture_in-IsIndexed :
    (u : Unicode) (mt : Matcher) (m : Model) (mode : Mode) (c : KeyChord)
    → IsIndexed m
    → IsIndexed (capture_in u mt m mode c).0
unfolding capture_in
capture_in-IsIndexed u mt m (Mode.preferences (some a)) c v =
    bind_chord-IsIndexed u mt m a c (conflict u m.prefs a c) v
capture_in-IsIndexed u mt m (Mode.preferences none) c v = v
capture_in-IsIndexed u mt m Mode.list c v = v
capture_in-IsIndexed u mt m (Mode.actions k i) c v = v

copy_finished-IsIndexed :
    (mt : Matcher) (m : Model) (f : Option String)
    → IsIndexed m
    → IsIndexed (copy_finished mt m f).0
unfolding copy_finished
copy_finished-IsIndexed mt m none v = ground (arith, hide-IsIndexed mt m v)
copy_finished-IsIndexed mt m (some t) v = notify-IsIndexed m "Clipboard unavailable" v

toggle_reveal-IsIndexed : (m : Model) → IsIndexed m → IsIndexed (toggle_reveal m).0
unfolding toggle_reveal
toggle_reveal-IsIndexed m v = ground arith

reveal_fetched-IsIndexed :
    (m : Model) (key : ItemKey) (i g : ℕ) (r : Result String)
    → IsIndexed m
    → IsIndexed (reveal_fetched m key i g r).0
unfolding reveal_fetched
reveal_fetched-IsIndexed m key i g r v = ground arith

totp_fetched-IsIndexed :
    (m : Model) (key : ItemKey) (r : Result (List (String × String))) (now : ℤ)
    → IsIndexed m
    → IsIndexed (totp_fetched m key r now).0
unfolding totp_fetched
totp_fetched-IsIndexed m key r now v = ground arith

tick-IsIndexed : (m : Model) (now : ℤ) → IsIndexed m → IsIndexed (tick m now).0
unfolding tick
tick-IsIndexed m now v = ground arith

escape-IsIndexed : (mt : Matcher) (m : Model) → IsIndexed m → IsIndexed (escape mt m).0
unfolding escape
escape-IsIndexed mt m v = ground (arith, hide-IsIndexed mt m v)

open_preferences-IsIndexed : (m : Model) → IsIndexed m → IsIndexed (open_preferences m).0
unfolding open_preferences
open_preferences-IsIndexed m v = ground arith

-- Every message keeps the rows, the index and the selection in step with the items.
pub update-IsIndexed :
    (u : Unicode) (mt : Matcher) (m : Model) (msg : Msg) (now : ℤ)
    → IsIndexed m
    → IsIndexed (update u mt m msg now).0
unfolding update start_rebind copy_fetched chord_captured adjust_clipboard_clear reset_shortcuts
    data_loaded cache_loaded startup version_probed start_login login_line login_finished
update-IsIndexed u mt m Msg.toggle now v =
    if_keeps {A = Outcome} (λ o. IsIndexed o.0) m.view.visible (hide-IsIndexed mt m v)
      (show-IsIndexed m now v)
update-IsIndexed u mt m Msg.show now v = show-IsIndexed m now v
update-IsIndexed u mt m Msg.hide now v = hide-IsIndexed mt m v
update-IsIndexed u mt m (Msg.query_changed query) now v =
    recompute_results-IsIndexed mt
      (record m { view = record (m.view) { query = query; selected = 0 } }) v.indexed
update-IsIndexed u mt m Msg.select_next now v = move_selection-IsIndexed m _ v
update-IsIndexed u mt m Msg.select_prev now v = move_selection-IsIndexed m _ v
update-IsIndexed u mt m Msg.page_down now v = move_selection-IsIndexed m _ v
update-IsIndexed u mt m Msg.page_up now v = move_selection-IsIndexed m _ v
update-IsIndexed u mt m (Msg.select index) now v = ground arith
update-IsIndexed u mt m Msg.refresh_requested now v = request_refresh-IsIndexed m v
update-IsIndexed u mt m (Msg.data_loaded listing) now v =
    replace_items-IsIndexed u mt (refreshed m now) listing
update-IsIndexed u mt m (Msg.cache_loaded none) now v = v
update-IsIndexed u mt m (Msg.cache_loaded (some file)) now v = load_file-IsIndexed u mt m file v
update-IsIndexed u mt m Msg.open_preferences now v = open_preferences-IsIndexed m v
update-IsIndexed u mt m (Msg.adjust_clipboard_clear delta) now v =
    save_prefs-IsIndexed u mt m
      (record (m.prefs) { clipboard_clear_secs = adjusted m.prefs.clipboard_clear_secs delta }) v
update-IsIndexed u mt m (Msg.start_rebind action) now v = ground arith
update-IsIndexed u mt m (Msg.chord_captured chord) now v =
    capture_in-IsIndexed u mt m m.view.mode chord v
update-IsIndexed u mt m Msg.reset_shortcuts now v =
    save_prefs-IsIndexed u mt m (record (m.prefs) { shortcuts = default_prefs.shortcuts }) v
update-IsIndexed u mt m (Msg.prefs_loaded prefs) now v =
    apply_prefs-IsIndexed mt m (validated u prefs) v
update-IsIndexed u mt m (Msg.refresh_failed e) now v = refresh_failed-IsIndexed mt m e v
update-IsIndexed u mt m Msg.startup now v = ground arith
update-IsIndexed u mt m (Msg.version_probed result) now v = ground arith
update-IsIndexed u mt m (Msg.session_probed result) now v = session_probed-IsIndexed mt m result v
update-IsIndexed u mt m Msg.start_login now v = ground arith
update-IsIndexed u mt m (Msg.login_line line) now v = ground arith
update-IsIndexed u mt m (Msg.login_finished result) now v = ground arith
update-IsIndexed u mt m Msg.copy_primary now v = copy_with-IsIndexed m _ _ v
update-IsIndexed u mt m Msg.copy_username now v = copy_with-IsIndexed m _ _ v
update-IsIndexed u mt m Msg.copy_totp now v = copy_with-IsIndexed m _ _ v
update-IsIndexed u mt m Msg.copy_url now v = copy_with-IsIndexed m _ _ v
update-IsIndexed u mt m Msg.open_actions now v = ground arith
update-IsIndexed u mt m (Msg.activate_action index) now v = activate_action-IsIndexed m index v
update-IsIndexed u mt m Msg.back now v = leave_mode-IsIndexed m v
update-IsIndexed u mt m Msg.toggle_reveal now v = toggle_reveal-IsIndexed m v
update-IsIndexed u mt m (Msg.reveal_fetched key index generation result) now v =
    reveal_fetched-IsIndexed m key index generation result v
update-IsIndexed u mt m (Msg.totp_fetched key result) now v =
    totp_fetched-IsIndexed m key result now v
update-IsIndexed u mt m (Msg.tick at) now v = tick-IsIndexed m at v
update-IsIndexed u mt m (Msg.copy_fetched key result) now v =
    take_pending-IsIndexed mt m m.view.pending key result now v
update-IsIndexed u mt m (Msg.copy_finished failure) now v = copy_finished-IsIndexed mt m failure v
update-IsIndexed u mt m Msg.escape now v = escape-IsIndexed mt m v
update-IsIndexed u mt m (Msg.notice_expired id) now v = ground arith
