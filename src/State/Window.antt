-- ===== src/State/Window.antt =====
-- src/core/state.rs, `Model::update`: what the window is told.
pub mod Parts
use cosmic_pass.Base.{
  ℕ, zero, suc, ◌+◌, ◌≤◌, ◌≡◌, refl, String, Bool, true, false, Option, some, none, List, [], ◌∷◌,
  arith, if◌then◌else◌, decide, Option-cases, inl, inr,
}
use cosmic_pass.Base.Int.{ℤ}
use cosmic_pass.Base.Unicode.{Unicode}
use cosmic_pass.Config.Types.{Preferences, Action, KeyChord, insert, show_chord, action_label}
use cosmic_pass.Config.Defaults.{default_prefs}
use cosmic_pass.Config.Validate.{validated, conflict}
use cosmic_pass.Domain.Items.{AccountId, ItemKey, ItemSummary, Listing, CacheFile}
use cosmic_pass.Pass.Error.{PassError, Result, ok, err, to_string}
use cosmic_pass.Actions.Rows.{CopySource, ActionEntry, field_source, totp_source}
use cosmic_pass.Search.Index.{Matcher}
use cosmic_pass.State.Types.{SessionState, Model, Msg, Effect, Mode, PendingFetch, Outcome}
use cosmic_pass.State.View.{
  notify, cancel_reveal, drop_reveal, clear_revealed, leave_mode, cancel_pending, recompute_results,
  put_away, hide, request_refresh, show, move_highlight, move_result, move_selection,
  drop_stale_reveal, install, reselect, replace_items,
}
use cosmic_pass.State.Session.{
  forget, wipe, clear_data, session_error, signed_in, from_file, load_file, cache_loaded, refreshed,
  data_loaded, refresh_failed, startup, session_probed, version_probed, start_login, login_line,
  login_finished,
}
use cosmic_pass.State.Copy.{
  notified, start_copy, fetch_effect, copy_with, activate_action, finish_copy, copy_failed,
  copy_settled, take_pending, copy_fetched, copy_confirmed, copy_finished,
}
use cosmic_pass.State.Reveal.{
  fetch_totp, reveal_totp_token, reveal_pinned, reveal_field, reveal_row, toggle_row, toggle_in,
  toggle_reveal, reveal_settled, reveal_fetched, totp_settled, totp_fetched, tick,
}
use cosmic_pass.State.Settings.{
  adjusted, apply_prefs, save_prefs, bind_chord, capture_in, chord_captured, open_preferences,
  adjust_clipboard_clear, start_rebind, reset_shortcuts,
}
use cosmic_pass.State.Update.{
  query_changed, select, open_actions, escape, notice_expired, toggle, update,
}
use cosmic_pass.State.Window.Parts.{
  window_asks, told, notify-Tells, request_refresh-Tells, show-Tells, hide-Tells, clear_data-Tells,
  session_error-Tells, signed_in-Tells, replace_items-Tells, copy_with-Tells, move_selection-Tells,
  reveal_fetched-Tells, totp_fetched-Tells, tick-Tells, start_copy-Tells, activate_action-Tells,
  copy_settled-Tells, take_pending-Tells, save_prefs-Tells, notified-Tells, bind_chord-Tells,
  copy_confirmed-Tells, capture_in-Tells, toggle_in-Tells,
}

-- A message tells the window at most once to show itself or to hide, and the model holds the window
-- for visible just when that, or else what held before, leaves it up.
pub update-Tells :
    (u : Unicode) (mt : Matcher) (m : Model) (msg : Msg) (now : ℤ)
    → told m.view.visible (window_asks (update u mt m msg now).1)
      ≡ some (update u mt m msg now).0.view.visible
unfolding update toggle start_rebind copy_finished notify copy_fetched chord_captured
    adjust_clipboard_clear reset_shortcuts data_loaded cache_loaded startup version_probed
    start_login login_line login_finished refresh_failed session_probed toggle_reveal
    open_preferences query_changed recompute_results leave_mode select open_actions notice_expired
    escape
update-Tells u mt m Msg.toggle now = ground (arith, show-Tells m now, hide-Tells mt m)
update-Tells u mt m Msg.show now = show-Tells m now
update-Tells u mt m Msg.hide now = hide-Tells mt m
update-Tells u mt m (Msg.query_changed query) now = ground arith
update-Tells u mt m Msg.select_next now = move_selection-Tells m _
update-Tells u mt m Msg.select_prev now = move_selection-Tells m _
update-Tells u mt m Msg.page_down now = move_selection-Tells m _
update-Tells u mt m Msg.page_up now = move_selection-Tells m _
update-Tells u mt m (Msg.select index) now = ground arith
update-Tells u mt m Msg.refresh_requested now = request_refresh-Tells m
update-Tells u mt m (Msg.data_loaded listing) now =
    ground (arith, replace_items-Tells u mt (refreshed m now) listing)
update-Tells u mt m (Msg.cache_loaded none) now = ground arith
update-Tells u mt m (Msg.cache_loaded (some file)) now = ground (
  arith,
  replace_items-Tells u mt (from_file m file) (record { vaults = file.vaults; items = file.items }),
)
update-Tells u mt m Msg.open_preferences now = ground arith
update-Tells u mt m (Msg.adjust_clipboard_clear delta) now =
    save_prefs-Tells u mt m
      (record (m.prefs) { clipboard_clear_secs = adjusted m.prefs.clipboard_clear_secs delta })
update-Tells u mt m (Msg.start_rebind action) now = ground arith
update-Tells u mt m (Msg.chord_captured chord) now = capture_in-Tells u mt m m.view.mode chord
update-Tells u mt m Msg.reset_shortcuts now =
    save_prefs-Tells u mt m (record (m.prefs) { shortcuts = default_prefs.shortcuts })
update-Tells u mt m (Msg.prefs_loaded prefs) now = ground arith
update-Tells u mt m (Msg.refresh_failed e) now = ground (
  arith,
  session_error-Tells mt
      (record m { data_state = record (m.data_state) { refreshing = false; stale = true } }) e,
)
update-Tells u mt m Msg.startup now = ground arith
update-Tells u mt m (Msg.version_probed result) now = ground arith
update-Tells u mt m (Msg.session_probed (ok a)) now = signed_in-Tells mt m a
update-Tells u mt m (Msg.session_probed (err e)) now = ground (arith, session_error-Tells mt m e)
update-Tells u mt m Msg.start_login now = ground arith
update-Tells u mt m (Msg.login_line line) now = ground arith
update-Tells u mt m (Msg.login_finished result) now = ground arith
update-Tells u mt m Msg.copy_primary now = copy_with-Tells m _ _
update-Tells u mt m Msg.copy_username now = copy_with-Tells m _ _
update-Tells u mt m Msg.copy_totp now = copy_with-Tells m _ _
update-Tells u mt m Msg.copy_url now = copy_with-Tells m _ _
update-Tells u mt m Msg.open_actions now = ground arith
update-Tells u mt m (Msg.activate_action index) now = activate_action-Tells m index
update-Tells u mt m Msg.back now = ground arith
update-Tells u mt m Msg.toggle_reveal now = toggle_in-Tells m m.view.mode
update-Tells u mt m (Msg.reveal_fetched key index generation result) now =
    reveal_fetched-Tells m key index generation result
update-Tells u mt m (Msg.totp_fetched key result) now = totp_fetched-Tells m key result now
update-Tells u mt m (Msg.tick at) now = tick-Tells m at
update-Tells u mt m (Msg.copy_fetched key result) now =
    take_pending-Tells mt m m.view.pending key result now
update-Tells u mt m (Msg.copy_finished none) now = copy_confirmed-Tells mt m
update-Tells u mt m (Msg.copy_finished (some text)) now = ground arith
update-Tells u mt m Msg.escape now = ground (arith, hide-Tells mt m)
update-Tells u mt m (Msg.notice_expired id) now = ground arith
