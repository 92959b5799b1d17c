-- ===== src/State/Clipboard.antt =====
-- src/core/state.rs, `Model::update`: what is put on the clipboard.
pub mod Parts
pub mod Once
use cosmic_pass.Base.{
  Bool-cases, Bool, decide, ℕ, zero, suc, ◌+◌, ◌≤◌, ◌≡◌, refl, String, Bool, true, false, Option,
  some, none, List, [], ◌∷◌, arith, if◌then◌else◌, decide, Option-cases, inl, inr,
}
use cosmic_pass.Base.Int.{ℤ}
use cosmic_pass.Base.Unicode.{Unicode}
use cosmic_pass.Config.Types.{Preferences, Action, KeyChord, insert, show_chord, action_label}
use cosmic_pass.Config.Defaults.{default_prefs}
use cosmic_pass.Config.Validate.{validated, conflict}
use cosmic_pass.Domain.Items.{key_discrete, AccountId, ItemKey, ItemSummary, Listing, CacheFile}
use cosmic_pass.Pass.Error.{PassError, Result, ok, err, to_string}
use cosmic_pass.Actions.Rows.{CopySource, ActionEntry, field_source, totp_source}
use cosmic_pass.Search.Index.{Matcher}
use cosmic_pass.State.Types.{SessionState, Model, Msg, Effect, Mode, PendingFetch, Outcome}
use cosmic_pass.State.View.{
  notify, cancel_reveal, drop_reveal, clear_revealed, leave_mode, cancel_pending, recompute_results,
  put_away, hide, request_refresh, show, move_highlight, move_result, move_selection,
  drop_stale_reveal, install, reselect, replace_items,
}
use cosmic_pass.State.Session.{
  forget, wipe, clear_data, session_error, signed_in, from_file, load_file, cache_loaded, refreshed,
  data_loaded, refresh_failed, startup, session_probed, version_probed, start_login, login_line,
  login_finished,
}
use cosmic_pass.State.Copy.{
  notified, start_copy, fetch_effect, copy_with, activate_action, finish_copy, copy_failed,
  copy_settled, take_pending, copy_fetched, copy_confirmed, copy_finished,
}
use cosmic_pass.State.Reveal.{
  fetch_totp, reveal_totp_token, reveal_pinned, reveal_field, reveal_row, toggle_row, toggle_in,
  toggle_reveal, reveal_settled, reveal_fetched, totp_settled, totp_fetched, tick,
}
use cosmic_pass.State.Settings.{
  adjusted, apply_prefs, save_prefs, bind_chord, capture_in, chord_captured, open_preferences,
  adjust_clipboard_clear, start_rebind, reset_shortcuts,
}
use cosmic_pass.State.Update.{
  query_changed, select, open_actions, escape, notice_expired, toggle, update,
}
use cosmic_pass.State.Clipboard.Parts.{
  copies, IsSilent, hide-IsSilent, request_refresh-IsSilent, show-IsSilent, session_error-IsSilent,
  signed_in-IsSilent, load_file-IsSilent, copy_with-IsSilent, move_selection-IsSilent,
  reveal_fetched-IsSilent, totp_fetched-IsSilent, tick-IsSilent, start_copy-IsSilent,
  activate_action-IsSilent, notified-IsSilent, save_prefs-IsSilent, bind_chord-IsSilent,
  copy_confirmed-IsSilent, capture_in-IsSilent, toggle_in-IsSilent,
}

-- What may reach the clipboard when a message arrives: the fetched value, if the message answers
-- the pending fetch.
abbrev pub answered : Option PendingFetch → ItemKey → Result String → List (String × Bool)
answered (some p) key (ok value) =
    if decide (key_discrete p.key key) then (value, p.secret) ∷ [] else []
answered _ key r = []

other_copies :
    (p : PendingFetch) (key : ItemKey) (r : Result String)
    → decide (key_discrete p.key key) ≡ false
    → [] ≡ answered (some p) key r
other_copies p key (ok v) h = rw h refl
other_copies p key (err e) h = refl

abbrev pub allowed : Model → Msg → List (String × Bool)
allowed m (Msg.copy_fetched key r) = answered m.view.pending key r
allowed m _ = []

copies-copy_settled :
    (mt : Matcher) (m : Model) (key : ItemKey) (p : PendingFetch) (r : Result String) (now : ℤ)
    → (decide (key_discrete p.key key) ≡ true)
    → copies (copy_settled mt m key p r now).1 ≡ answered (some p) key r
unfolding copy_settled copy_failed finish_copy notify
copies-copy_settled mt m key p (ok value) now h = rw h refl
copies-copy_settled mt m key p (err PassError.cancelled) now h = refl
copies-copy_settled mt m key p (err PassError.not_found) now h =
    request_refresh-IsSilent (notify m "Item no longer exists").0
copies-copy_settled mt m key p (err PassError.field_missing) now h = refl
copies-copy_settled mt m key p (err e) now h =
    session_error-IsSilent mt (notify m (to_string e)).0 e

copies-take_pending :
    (mt : Matcher) (m : Model) (o : Option PendingFetch) (key : ItemKey) (r : Result String)
    (now : ℤ)
    → copies (take_pending mt m o key r now).1 ≡ answered o key r
unfolding take_pending
copies-take_pending mt m none key r now = refl
copies-take_pending mt m (some p) key r now = elim (Bool-cases (decide (key_discrete p.key key))) [
  | inl e ↦ rw e (
      copies-copy_settled mt (record m { view = record (m.view) { pending = none } }) key p r now e)
  | inr e ↦ rw e (other_copies p key r e)
]

-- The clipboard receives exactly the value that answers the pending fetch, with the secrecy that was
-- asked for; no other message and no error puts anything on it.
pub copies-update :
    (u : Unicode) (mt : Matcher) (m : Model) (msg : Msg) (now : ℤ)
    → copies (update u mt m msg now).1 ≡ allowed m msg
unfolding update toggle start_rebind copy_finished notify copy_fetched chord_captured
    adjust_clipboard_clear reset_shortcuts data_loaded cache_loaded startup version_probed
    start_login login_line login_finished refresh_failed session_probed toggle_reveal
    open_preferences query_changed recompute_results leave_mode select open_actions notice_expired
    escape
copies-update u mt m Msg.toggle now = ground (arith, show-IsSilent m now, hide-IsSilent mt m)
copies-update u mt m Msg.show now = show-IsSilent m now
copies-update u mt m Msg.hide now = hide-IsSilent mt m
copies-update u mt m (Msg.query_changed query) now = ground arith
copies-update u mt m Msg.select_next now = move_selection-IsSilent m _
copies-update u mt m Msg.select_prev now = move_selection-IsSilent m _
copies-update u mt m Msg.page_down now = move_selection-IsSilent m _
copies-update u mt m Msg.page_up now = move_selection-IsSilent m _
copies-update u mt m (Msg.select index) now = ground arith
copies-update u mt m Msg.refresh_requested now = request_refresh-IsSilent m
copies-update u mt m (Msg.data_loaded listing) now = refl
copies-update u mt m (Msg.cache_loaded none) now = ground arith
copies-update u mt m (Msg.cache_loaded (some file)) now = load_file-IsSilent u mt m file
copies-update u mt m Msg.open_preferences now = ground arith
copies-update u mt m (Msg.adjust_clipboard_clear delta) now =
    save_prefs-IsSilent u mt m
      (record (m.prefs) { clipboard_clear_secs = adjusted m.prefs.clipboard_clear_secs delta })
copies-update u mt m (Msg.start_rebind action) now = ground arith
copies-update u mt m (Msg.chord_captured chord) now = capture_in-IsSilent u mt m m.view.mode chord
copies-update u mt m Msg.reset_shortcuts now =
    save_prefs-IsSilent u mt m (record (m.prefs) { shortcuts = default_prefs.shortcuts })
copies-update u mt m (Msg.prefs_loaded prefs) now = ground arith
copies-update u mt m (Msg.refresh_failed e) now = ground (
  arith,
  session_error-IsSilent mt
      (record m { data_state = record (m.data_state) { refreshing = false; stale = true } }) e,
)
copies-update u mt m Msg.startup now = ground arith
copies-update u mt m (Msg.version_probed result) now = ground arith
copies-update u mt m (Msg.session_probed (ok a)) now = signed_in-IsSilent mt m a
copies-update u mt m (Msg.session_probed (err e)) now =
    ground (arith, session_error-IsSilent mt m e)
copies-update u mt m Msg.start_login now = ground arith
copies-update u mt m (Msg.login_line line) now = ground arith
copies-update u mt m (Msg.login_finished result) now = ground arith
copies-update u mt m Msg.copy_primary now = copy_with-IsSilent m _ _
copies-update u mt m Msg.copy_username now = copy_with-IsSilent m _ _
copies-update u mt m Msg.copy_totp now = copy_with-IsSilent m _ _
copies-update u mt m Msg.copy_url now = copy_with-IsSilent m _ _
copies-update u mt m Msg.open_actions now = ground arith
copies-update u mt m (Msg.activate_action index) now = activate_action-IsSilent m index
copies-update u mt m Msg.back now = ground arith
copies-update u mt m Msg.toggle_reveal now = toggle_in-IsSilent m m.view.mode
copies-update u mt m (Msg.reveal_fetched key index generation result) now =
    reveal_fetched-IsSilent m key index generation result
copies-update u mt m (Msg.totp_fetched key result) now = totp_fetched-IsSilent m key result now
copies-update u mt m (Msg.tick at) now = tick-IsSilent m at
copies-update u mt m (Msg.copy_fetched key result) now =
    copies-take_pending mt m m.view.pending key result now
copies-update u mt m (Msg.copy_finished none) now = copy_confirmed-IsSilent mt m
copies-update u mt m (Msg.copy_finished (some text)) now = ground arith
copies-update u mt m Msg.escape now = ground (arith, hide-IsSilent mt m)
copies-update u mt m (Msg.notice_expired id) now = ground arith
