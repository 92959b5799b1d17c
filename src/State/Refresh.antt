-- ===== src/State/Refresh.antt =====
-- src/core/state.rs, `Model::update`: refreshes in flight and refreshes asked for.
pub mod Parts
use cosmic_pass.Base.{
  ℕ, zero, suc, ◌+◌, ◌≤◌, ◌≡◌, refl, String, Bool, true, false, Option, some, none, List, [], ◌∷◌,
  arith, if◌then◌else◌, decide, Option-cases, inl, inr,
}
use cosmic_pass.Base.Int.{ℤ}
use cosmic_pass.Base.Unicode.{Unicode}
use cosmic_pass.Config.Types.{Preferences, Action, KeyChord, insert, show_chord, action_label}
use cosmic_pass.Config.Defaults.{default_prefs}
use cosmic_pass.Config.Validate.{validated, conflict}
use cosmic_pass.Domain.Items.{AccountId, ItemKey, ItemSummary, Listing, CacheFile}
use cosmic_pass.Pass.Error.{PassError, Result, ok, err, to_string}
use cosmic_pass.Actions.Rows.{CopySource, ActionEntry, field_source, totp_source}
use cosmic_pass.Search.Index.{Matcher}
use cosmic_pass.State.Types.{SessionState, Model, Msg, Effect, Mode, PendingFetch, Outcome}
use cosmic_pass.State.View.{
  notify, cancel_reveal, drop_reveal, clear_revealed, leave_mode, cancel_pending, recompute_results,
  put_away, hide, request_refresh, show, move_highlight, move_result, move_selection,
  drop_stale_reveal, install, reselect, replace_items,
}
use cosmic_pass.State.Session.{
  forget, wipe, clear_data, session_error, signed_in, from_file, load_file, cache_loaded, refreshed,
  data_loaded, refresh_failed, startup, session_probed, version_probed, start_login, login_line,
  login_finished,
}
use cosmic_pass.State.Copy.{
  notified, start_copy, fetch_effect, copy_with, activate_action, finish_copy, copy_failed,
  copy_settled, take_pending, copy_fetched, copy_confirmed, copy_finished,
}
use cosmic_pass.State.Reveal.{
  fetch_totp, reveal_totp_token, reveal_pinned, reveal_field, reveal_row, toggle_row, toggle_in,
  toggle_reveal, reveal_settled, reveal_fetched, totp_settled, totp_fetched, tick,
}
use cosmic_pass.State.Settings.{
  adjusted, apply_prefs, save_prefs, bind_chord, capture_in, chord_captured, open_preferences,
  adjust_clipboard_clear, start_rebind, reset_shortcuts,
}
use cosmic_pass.State.Update.{
  query_changed, select, open_actions, escape, notice_expired, toggle, update,
}
use cosmic_pass.State.Refresh.Parts.{
  refreshes, in_flight, unanswered, notify_balance, request_refresh_balance, show_balance,
  hide_balance, clear_data_balance, session_error_balance, signed_in_balance, replace_items_balance,
  copy_with_balance, move_selection_balance, reveal_fetched_balance, totp_fetched_balance,
  tick_balance, start_copy_balance, activate_action_balance, copy_settled_balance,
  take_pending_balance, save_prefs_balance, notified_balance, bind_chord_balance,
  copy_confirmed_balance, capture_in_balance, toggle_in_balance,
}

-- The refresh in flight after a message is the one that was in flight and is not answered, or the one
-- that the message asks for: the reducer asks for no refresh while one is in flight, and counts
-- every one that it asks for.
pub update_balance :
    (u : Unicode) (mt : Matcher) (m : Model) (msg : Msg) (now : ℤ)
    → in_flight (update u mt m msg now).0
      ≡ unanswered msg (in_flight m) + refreshes (update u mt m msg now).1
unfolding update toggle start_rebind copy_finished notify copy_fetched chord_captured
    adjust_clipboard_clear reset_shortcuts data_loaded cache_loaded startup version_probed
    start_login login_line login_finished refresh_failed session_probed toggle_reveal
    open_preferences query_changed recompute_results leave_mode select open_actions notice_expired
    escape
update_balance u mt m Msg.toggle now = ground (arith, show_balance m now, hide_balance mt m)
update_balance u mt m Msg.show now = show_balance m now
update_balance u mt m Msg.hide now = hide_balance mt m
update_balance u mt m (Msg.query_changed query) now = ground arith
update_balance u mt m Msg.select_next now = move_selection_balance m _
update_balance u mt m Msg.select_prev now = move_selection_balance m _
update_balance u mt m Msg.page_down now = move_selection_balance m _
update_balance u mt m Msg.page_up now = move_selection_balance m _
update_balance u mt m (Msg.select index) now = ground arith
update_balance u mt m Msg.refresh_requested now = request_refresh_balance m
update_balance u mt m (Msg.data_loaded listing) now =
    ground (arith, replace_items_balance u mt (refreshed m now) listing)
update_balance u mt m (Msg.cache_loaded none) now = ground arith
update_balance u mt m (Msg.cache_loaded (some file)) now = ground (
  arith,
  replace_items_balance u mt (from_file m file)
      (record { vaults = file.vaults; items = file.items }),
)
update_balance u mt m Msg.open_preferences now = ground arith
update_balance u mt m (Msg.adjust_clipboard_clear delta) now =
    save_prefs_balance u mt m
      (record (m.prefs) { clipboard_clear_secs = adjusted m.prefs.clipboard_clear_secs delta })
update_balance u mt m (Msg.start_rebind action) now = ground arith
update_balance u mt m (Msg.chord_captured chord) now = capture_in_balance u mt m m.view.mode chord
update_balance u mt m Msg.reset_shortcuts now =
    save_prefs_balance u mt m (record (m.prefs) { shortcuts = default_prefs.shortcuts })
update_balance u mt m (Msg.prefs_loaded prefs) now = ground arith
update_balance u mt m (Msg.refresh_failed e) now = ground (
  arith,
  session_error_balance mt
      (record m { data_state = record (m.data_state) { refreshing = false; stale = true } }) e,
)
update_balance u mt m Msg.startup now = ground arith
update_balance u mt m (Msg.version_probed result) now = ground arith
update_balance u mt m (Msg.session_probed (ok a)) now = signed_in_balance mt m a
update_balance u mt m (Msg.session_probed (err e)) now =
    ground (arith, session_error_balance mt m e)
update_balance u mt m Msg.start_login now = ground arith
update_balance u mt m (Msg.login_line line) now = ground arith
update_balance u mt m (Msg.login_finished result) now = ground arith
update_balance u mt m Msg.copy_primary now = copy_with_balance m _ _
update_balance u mt m Msg.copy_username now = copy_with_balance m _ _
update_balance u mt m Msg.copy_totp now = copy_with_balance m _ _
update_balance u mt m Msg.copy_url now = copy_with_balance m _ _
update_balance u mt m Msg.open_actions now = ground arith
update_balance u mt m (Msg.activate_action index) now = activate_action_balance m index
update_balance u mt m Msg.back now = ground arith
update_balance u mt m Msg.toggle_reveal now = toggle_in_balance m m.view.mode
update_balance u mt m (Msg.reveal_fetched key index generation result) now =
    reveal_fetched_balance m key index generation result
update_balance u mt m (Msg.totp_fetched key result) now = totp_fetched_balance m key result now
update_balance u mt m (Msg.tick at) now = tick_balance m at
update_balance u mt m (Msg.copy_fetched key result) now =
    take_pending_balance mt m m.view.pending key result now
update_balance u mt m (Msg.copy_finished none) now = copy_confirmed_balance mt m
update_balance u mt m (Msg.copy_finished (some text)) now = ground arith
update_balance u mt m Msg.escape now = ground (arith, hide_balance mt m)
update_balance u mt m (Msg.notice_expired id) now = ground arith
