-- ===== src/State/Invariant/Accounts/Kept.antt =====
-- Every message keeps the account of the data and the bound of the usage table.
use cosmic_pass.Base.{◌∷◌, refl, [], List, decide, true, false, some, none, arith}
use cosmic_pass.Base.Int.{ℤ}
use cosmic_pass.Base.Unicode.{Unicode}
use cosmic_pass.Usage.Recent.{is_distinct}
use cosmic_pass.Config.Types.{Preferences}
use cosmic_pass.Config.Defaults.{default_prefs}
use cosmic_pass.Pass.Error.{ok, err}
use cosmic_pass.Search.Index.{Matcher}
use cosmic_pass.State.Types.{Model, Msg}
use cosmic_pass.State.View.{notify, leave_mode, recompute_results}
use cosmic_pass.State.Session.{
  cache_loaded, refreshed, data_loaded, refresh_failed, startup, session_probed, version_probed,
  start_login, login_line, login_finished,
}
use cosmic_pass.State.Copy.{copy_fetched, copy_finished}
use cosmic_pass.State.Reveal.{toggle_reveal}
use cosmic_pass.State.Settings.{
  adjusted, chord_captured, open_preferences, adjust_clipboard_clear, start_rebind, reset_shortcuts,
}
use cosmic_pass.State.Update.{
  query_changed, select, open_actions, escape, notice_expired, toggle, update,
}
use cosmic_pass.State.Invariant.Accounts.Basics.{
  IsAccounted, request_refresh-IsAccounted, show-IsAccounted, hide-IsAccounted,
  session_error-IsAccounted, signed_in-IsAccounted, replace_items-IsAccounted,
  copy_with-IsAccounted, move_selection-IsAccounted, reveal_fetched-IsAccounted,
  totp_fetched-IsAccounted, tick-IsAccounted, activate_action-IsAccounted,
}
use cosmic_pass.State.Invariant.Accounts.Parts.{
  take_pending-IsAccounted, save_prefs-IsAccounted, copy_confirmed-IsAccounted,
  capture_in-IsAccounted, toggle_in-IsAccounted, load_file-IsAccounted,
}
use cosmic_pass.State.Update.{run}
use cosmic_pass.State.Types.{new_model}

refreshed-IsAccounted : (m : Model) (now : ℤ) → IsAccounted m → IsAccounted (refreshed m now)
unfolding refreshed decide
refreshed-IsAccounted m now v = ground arith

pub update-IsAccounted :
    (u : Unicode) (mt : Matcher) (m : Model) (msg : Msg) (now : ℤ)
    → IsAccounted m
    → IsAccounted (update u mt m msg now).0
unfolding update toggle start_rebind copy_finished notify copy_fetched chord_captured
    adjust_clipboard_clear reset_shortcuts data_loaded cache_loaded startup version_probed
    start_login login_line login_finished refresh_failed session_probed toggle_reveal
    open_preferences query_changed recompute_results leave_mode select open_actions notice_expired
    escape
update-IsAccounted u mt m Msg.toggle now v =
    ground (arith, show-IsAccounted m now, hide-IsAccounted mt m)
update-IsAccounted u mt m Msg.show now v = show-IsAccounted m now v
update-IsAccounted u mt m Msg.hide now v = hide-IsAccounted mt m v
update-IsAccounted u mt m (Msg.query_changed query) now v = ground arith
update-IsAccounted u mt m Msg.select_next now v = move_selection-IsAccounted m _ v
update-IsAccounted u mt m Msg.select_prev now v = move_selection-IsAccounted m _ v
update-IsAccounted u mt m Msg.page_down now v = move_selection-IsAccounted m _ v
update-IsAccounted u mt m Msg.page_up now v = move_selection-IsAccounted m _ v
update-IsAccounted u mt m (Msg.select index) now v = ground arith
update-IsAccounted u mt m Msg.refresh_requested now v = request_refresh-IsAccounted m v
update-IsAccounted u mt m (Msg.data_loaded listing) now v =
    replace_items-IsAccounted u mt (refreshed m now) listing (refreshed-IsAccounted m now v)
update-IsAccounted u mt m (Msg.cache_loaded none) now v = ground arith
update-IsAccounted u mt m (Msg.cache_loaded (some file)) now v = load_file-IsAccounted u mt m file v
update-IsAccounted u mt m Msg.open_preferences now v = ground arith
update-IsAccounted u mt m (Msg.adjust_clipboard_clear delta) now v =
    save_prefs-IsAccounted u mt m
      (record (m.prefs) { clipboard_clear_secs = adjusted m.prefs.clipboard_clear_secs delta }) v
update-IsAccounted u mt m (Msg.start_rebind action) now v = ground arith
update-IsAccounted u mt m (Msg.chord_captured chord) now v =
    capture_in-IsAccounted u mt m m.view.mode chord v
update-IsAccounted u mt m Msg.reset_shortcuts now v =
    save_prefs-IsAccounted u mt m (record (m.prefs) { shortcuts = default_prefs.shortcuts }) v
update-IsAccounted u mt m (Msg.prefs_loaded prefs) now v = ground arith
update-IsAccounted u mt m (Msg.refresh_failed e) now v = ground (
  arith,
  session_error-IsAccounted mt
      (record m { data_state = record (m.data_state) { refreshing = false; stale = true } }) e,
)
update-IsAccounted u mt m Msg.startup now v = ground arith
update-IsAccounted u mt m (Msg.version_probed result) now v = ground arith
update-IsAccounted u mt m (Msg.session_probed (ok a)) now v = signed_in-IsAccounted mt m a v
update-IsAccounted u mt m (Msg.session_probed (err e)) now v =
    ground (arith, session_error-IsAccounted mt m e)
update-IsAccounted u mt m Msg.start_login now v = ground arith
update-IsAccounted u mt m (Msg.login_line line) now v = ground arith
update-IsAccounted u mt m (Msg.login_finished result) now v = ground arith
update-IsAccounted u mt m Msg.copy_primary now v = copy_with-IsAccounted m _ _ v
update-IsAccounted u mt m Msg.copy_username now v = copy_with-IsAccounted m _ _ v
update-IsAccounted u mt m Msg.copy_totp now v = copy_with-IsAccounted m _ _ v
update-IsAccounted u mt m Msg.copy_url now v = copy_with-IsAccounted m _ _ v
update-IsAccounted u mt m Msg.open_actions now v = ground arith
update-IsAccounted u mt m (Msg.activate_action index) now v = activate_action-IsAccounted m index v
update-IsAccounted u mt m Msg.back now v = ground arith
update-IsAccounted u mt m Msg.toggle_reveal now v = toggle_in-IsAccounted m m.view.mode v
update-IsAccounted u mt m (Msg.reveal_fetched key index generation result) now v =
    reveal_fetched-IsAccounted m key index generation result v
update-IsAccounted u mt m (Msg.totp_fetched key result) now v =
    totp_fetched-IsAccounted m key result now v
update-IsAccounted u mt m (Msg.tick at) now v = tick-IsAccounted m at v
update-IsAccounted u mt m (Msg.copy_fetched key result) now v =
    take_pending-IsAccounted mt m m.view.pending key result now v
update-IsAccounted u mt m (Msg.copy_finished none) now v = copy_confirmed-IsAccounted mt m v
update-IsAccounted u mt m (Msg.copy_finished (some text)) now v = ground arith
update-IsAccounted u mt m Msg.escape now v = ground (arith, hide-IsAccounted mt m)
update-IsAccounted u mt m (Msg.notice_expired id) now v = ground arith

run_from-IsAccounted :
    (u : Unicode) (mt : Matcher) (m : Model) (msgs : List (Msg × ℤ))
    → IsAccounted m
    → IsAccounted (run u mt m msgs)
unfolding run
run_from-IsAccounted u mt m [] v = v
run_from-IsAccounted u mt m ((msg, now) ∷ rest) v =
    run_from-IsAccounted u mt (update u mt m msg now).0 rest (update-IsAccounted u mt m msg now v)

-- After any messages from a new state: while an account is signed in, the data is recorded as that
-- account's, and the usage table has at most 200 records, one for each key.
pub run-IsAccounted :
    (u : Unicode) (mt : Matcher) (prefs : Preferences) (msgs : List (Msg × ℤ))
    → IsAccounted (run u mt (new_model prefs) msgs)
unfolding new_model is_distinct
run-IsAccounted u mt prefs msgs =
    run_from-IsAccounted u mt (new_model prefs) msgs
      (record { owned = refl; capped = omega arith; distinct = refl })
