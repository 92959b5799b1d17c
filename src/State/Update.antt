-- ===== src/State/Update.antt =====
-- src/core/state.rs: `Model::update`, the reducer.
use cosmic_pass.Base.{
  ℕ, ◌-◌, String, Option, some, none, List, [], ◌∷◌, if◌then◌else◌, ◌==◌, ltb, length, is_some_and,
}
use cosmic_pass.Base.Int.{ℤ, pos, negsuc}
use cosmic_pass.Base.Unicode.{Unicode}
use cosmic_pass.Config.Validate.{validated}
use cosmic_pass.Domain.Items.{ItemSummary}
use cosmic_pass.Actions.Rows.{primary_action, username_action, totp_action, url_action}
use cosmic_pass.Search.Index.{Matcher}
use cosmic_pass.State.Types.{Mode, PendingFetch, Model, Msg, Outcome}
use cosmic_pass.State.Query.{selected_item}
use cosmic_pass.State.View.{
  leave_mode, cancel_pending, recompute_results, hide, request_refresh, show, move_selection,
}
use cosmic_pass.State.Session.{
  cache_loaded, data_loaded, refresh_failed, startup, session_probed, version_probed, start_login,
  login_line, login_finished,
}
use cosmic_pass.State.Copy.{copy_with, activate_action, copy_fetched, copy_finished}
use cosmic_pass.State.Reveal.{toggle_reveal, reveal_fetched, totp_fetched, tick}
use cosmic_pass.State.Settings.{
  apply_prefs, chord_captured, open_preferences, adjust_clipboard_clear, start_rebind,
  reset_shortcuts,
}

-- `PAGE`.
abbrev page : ℕ
page = 10

-- `Msg::QueryChanged`.
unfoldable pub query_changed : Matcher → Model → String → Outcome
unfolding recompute_results
query_changed mt m query =
    (recompute_results mt (record m { view = record (m.view) { query = query; selected = 0 } }), [])

-- `Msg::Select`.
unfoldable pub select : Model → ℕ → Outcome
select m index =
    if ltb index (length m.view.results)
    then (record m { view = record (m.view) { selected = index } }, [])
    else (m, [])

abbrev open_on : Model → Option ItemSummary → Model
open_on m none = m
open_on m (some item) = record m { view = record (m.view) { mode = Mode.actions item.key 0 } }

-- `Msg::OpenActions`.
unfoldable pub open_actions : Model → Outcome
unfolding selected_item
open_actions m = (open_on m (selected_item m), [])

abbrev escape_mode : Matcher → Model → Mode → Outcome
escape_mode mt m Mode.list = hide mt m
escape_mode mt m (Mode.actions key selected) = (leave_mode m, [])
escape_mode mt m (Mode.preferences none) = (leave_mode m, [])
escape_mode mt m (Mode.preferences (some action)) =
    (record m { view = record (m.view) { mode = Mode.preferences none } }, [])

abbrev escape_pending : Matcher → Model → Option PendingFetch → Outcome
escape_pending mt m (some p) = (cancel_pending m, [])
escape_pending mt m none = escape_mode mt m m.view.mode

-- `Model::escape`.
unfoldable pub escape : Matcher → Model → Outcome
unfolding cancel_pending leave_mode hide
escape mt m = escape_pending mt m m.view.pending

-- `Msg::NoticeExpired`.
unfoldable pub notice_expired : Model → ℕ → Outcome
notice_expired m id =
    if is_some_and m.view.notice (λ n. n.id == id)
    then (record m { view = record (m.view) { notice = none } }, [])
    else (m, [])

-- `Msg::Toggle`.
unfoldable pub toggle : Matcher → Model → ℤ → Outcome
unfolding show hide
toggle mt m now =
    let shown = show m now in let hidden = hide mt m in if m.view.visible then hidden else shown

-- `Model::update`: one step of the reducer at the time `now`.
unfoldable pub update : Unicode → Matcher → Model → Msg → ℤ → Outcome
unfolding query_changed select open_actions escape notice_expired toggle
update u mt m Msg.toggle now = toggle mt m now
update u mt m Msg.show now = show m now
update u mt m Msg.hide now = hide mt m
update u mt m (Msg.query_changed query) now = query_changed mt m query
update u mt m Msg.select_next now = move_selection m (pos 1)
update u mt m Msg.select_prev now = move_selection m (negsuc 0)
update u mt m Msg.page_down now = move_selection m (pos page)
update u mt m Msg.page_up now = move_selection m (negsuc (page - 1))
update u mt m (Msg.select index) now = select m index
update u mt m Msg.refresh_requested now = request_refresh m
update u mt m (Msg.data_loaded listing) now = data_loaded u mt m listing now
update u mt m (Msg.cache_loaded file) now = cache_loaded u mt m file
update u mt m Msg.open_preferences now = open_preferences m
update u mt m (Msg.adjust_clipboard_clear delta) now = adjust_clipboard_clear u mt m delta
update u mt m (Msg.start_rebind action) now = start_rebind m action
update u mt m (Msg.chord_captured chord) now = chord_captured u mt m chord
update u mt m Msg.reset_shortcuts now = reset_shortcuts u mt m
update u mt m (Msg.prefs_loaded prefs) now = (apply_prefs mt m (validated u prefs), [])
update u mt m (Msg.refresh_failed e) now = refresh_failed mt m e
update u mt m Msg.startup now = startup m
update u mt m (Msg.version_probed result) now = version_probed m result
update u mt m (Msg.session_probed result) now = session_probed mt m result
update u mt m Msg.start_login now = start_login m
update u mt m (Msg.login_line line) now = login_line m line
update u mt m (Msg.login_finished result) now = login_finished m result
update u mt m Msg.copy_primary now = copy_with m primary_action "Nothing to copy"
update u mt m Msg.copy_username now = copy_with m username_action "This item has no username"
update u mt m Msg.copy_totp now = copy_with m totp_action "This item has no one-time code"
update u mt m Msg.copy_url now = copy_with m url_action "This item has no website"
update u mt m Msg.open_actions now = open_actions m
update u mt m (Msg.activate_action index) now = activate_action m index
update u mt m Msg.back now = (leave_mode m, [])
update u mt m Msg.toggle_reveal now = toggle_reveal m
update u mt m (Msg.reveal_fetched key index generation result) now =
    reveal_fetched m key index generation result
update u mt m (Msg.totp_fetched key result) now = totp_fetched m key result now
update u mt m (Msg.tick at) now = tick m at
update u mt m (Msg.copy_fetched key result) now = copy_fetched mt m key result now
update u mt m (Msg.copy_finished failure) now = copy_finished mt m failure
update u mt m Msg.escape now = escape mt m
update u mt m (Msg.notice_expired id) now = notice_expired m id

-- A run of the reducer: the messages in the order in which they arrive, each at its time.
unfoldable pub run : Unicode → Matcher → Model → List (Msg × ℤ) → Model
unfolding update
run u mt m [] = m
run u mt m ((msg, now) ∷ rest) = run u mt (update u mt m msg now).0 rest
