-- ===== src/State/Invariant/Reveal/Kept.antt =====
-- Every message keeps what is revealed within the action list and on the field it was asked for.
use cosmic_pass.Base.{ℕ, String, Option, some, none, List, arith, decide, if_keeps}
use cosmic_pass.Base.Int.{ℤ}
use cosmic_pass.Base.Unicode.{Unicode}
use cosmic_pass.Config.Defaults.{default_prefs}
use cosmic_pass.Config.Validate.{validated}
use cosmic_pass.Domain.Items.{ItemKey, key_discrete}
use cosmic_pass.Pass.Error.{Result}
use cosmic_pass.Search.Index.{Matcher}
use cosmic_pass.State.Types.{Model, Msg, Mode, Outcome}
use cosmic_pass.Actions.Rows.{CopySource}
use cosmic_pass.State.View.{is_intact, clear_revealed}
use cosmic_pass.State.Session.{
  cache_loaded, refreshed, data_loaded, startup, version_probed, start_login, login_line,
  login_finished,
}
use cosmic_pass.State.Copy.{copy_fetched}
use cosmic_pass.Domain.Items.{FieldRef}
use cosmic_pass.Base.{
  Bool, true, false, refl, ◌≡◌, ◌%◌, ◌+◌, find_holds, get_elem?, Option-cases, inl, inr,
}
use cosmic_pass.State.Invariant.Reveal.Parts.{clear_revealed-IsMasked}
use cosmic_pass.Base.Int.{u64_mod}
use cosmic_pass.State.Query.{actions_of, reveal_target, item_of, still_describes}
use cosmic_pass.Actions.Rows.{ActionEntry, field_source, totp_source}
use cosmic_pass.State.Types.{RevealTarget}
use cosmic_pass.State.Reveal.{
  reveal_pinned, reveal_field, reveal_row, toggle_row, toggle_in, was_showing, toggle_reveal,
  reveal_fetched, totp_fetched, tick,
}
use cosmic_pass.State.Settings.{
  adjusted, chord_captured, open_preferences, adjust_clipboard_clear, start_rebind, reset_shortcuts,
}
use cosmic_pass.State.Update.{escape, update}
use cosmic_pass.State.Invariant.Reveal.Parts.{
  IsMasked, request_refresh-IsMasked, recompute_results-IsMasked, leave_mode-IsMasked,
  replace_items-IsMasked, hide-IsMasked, show-IsMasked, move_selection-IsMasked, load_file-IsMasked,
  session_probed-IsMasked,
}
use cosmic_pass.State.Invariant.Reveal.Copying.{
  copy_with-IsMasked, activate_action-IsMasked, take_pending-IsMasked, refresh_failed-IsMasked,
  apply_prefs-IsMasked, save_prefs-IsMasked, capture_in-IsMasked, copy_finished-IsMasked,
}

-- A target is pinned to what the item is when it is made.
reveal_target-intact :
    (m : Model) (key : ItemKey) (i g : ℕ) (t : RevealTarget)
    → reveal_target m key i g ≡ some t
    → is_intact m t ≡ true
unfolding reveal_target is_intact item_of still_describes decide
reveal_target-intact m key i g t h = elim (Option-cases (item_of m key)) [
  | inl e ↦ ground (arith, e)
  | inr (item, e) ↦
      ground (arith, e, find_holds (λ i. decide (key_discrete i.key key)) m.data_state.items e)
]

abbrev is_actions : Mode → Bool
is_actions Mode.list = false
is_actions (Mode.preferences rebinding) = false
is_actions (Mode.actions key selected) = true

reveal_pinned-IsMasked :
    (m : Model) (key : ItemKey) (f : FieldRef) (i g : ℕ) (o : Option RevealTarget)
    → is_actions m.view.mode ≡ true
    → ((t : RevealTarget) → o ≡ some t → is_intact m t ≡ true)
    → IsMasked m
    → IsMasked (reveal_pinned m key f i g o).0
unfolding reveal_pinned is_intact
reveal_pinned-IsMasked m key f i g none a h v = v
reveal_pinned-IsMasked m key f i g (some t) a h v = record {
  hidden = ground arith;
  pinned = h t refl;
  waiting = refl;
}

reveal_field-IsMasked :
    (m : Model) (key : ItemKey) (f : FieldRef) (o : Option ℕ)
    → is_actions m.view.mode ≡ true
    → IsMasked m
    → IsMasked (reveal_field m key f o).0
unfolding reveal_field is_intact
reveal_field-IsMasked m key f none a v = v
reveal_field-IsMasked m key f (some i) a v =
    let g = (m.next_reveal + 1) % u64_mod in
    let counted : Model = record m { next_reveal = g } in
    reveal_pinned-IsMasked counted key f i g (reveal_target counted key i g) a
      (reveal_target-intact counted key i g)
      (record { hidden = v.hidden; pinned = v.pinned; waiting = v.waiting })

reveal_row-IsMasked :
    (m : Model) (key : ItemKey) (e : ActionEntry) (s : CopySource)
    → is_actions m.view.mode ≡ true
    → m.view.reveal_cancel ≡ none
    → IsMasked m
    → IsMasked (reveal_row m key e s).0
unfolding reveal_row
reveal_row-IsMasked m key e (totp_source name) a n v = ground arith
reveal_row-IsMasked m key e (field_source f) a n v =
    if_keeps {A = Outcome} (λ o. IsMasked o.0) f.secret
      (reveal_field-IsMasked m key f e.field_index a v) v

clear_revealed_cancel :
    (m : Model)
    → ((clear_revealed m).view.mode ≡ m.view.mode) × ((clear_revealed m).view.reveal_cancel ≡ none)
unfolding clear_revealed
clear_revealed_cancel m = ground arith

toggle_row-IsMasked :
    (m : Model) (key : ItemKey) (o : Option ActionEntry)
    → is_actions m.view.mode ≡ true
    → IsMasked m
    → IsMasked (toggle_row m key o).0
unfolding toggle_row
toggle_row-IsMasked m key none a v = v
toggle_row-IsMasked m key (some e) a v =
    let w : IsMasked (clear_revealed m) = clear_revealed-IsMasked m v in
    let (same, none_left) = clear_revealed_cancel m in
    if_keeps {A = Outcome} (λ o. IsMasked o.0) (was_showing m.view.revealed key e e.source) w
      (reveal_row-IsMasked (clear_revealed m) key e e.source (rw same a) none_left w)

toggle_in-IsMasked :
    (m : Model) (mode : Mode) → m.view.mode ≡ mode → IsMasked m → IsMasked (toggle_in m mode).0
unfolding toggle_in
toggle_in-IsMasked m Mode.list e v = v
toggle_in-IsMasked m (Mode.preferences r) e v = v
toggle_in-IsMasked m (Mode.actions key i) e v =
    toggle_row-IsMasked m key (get_elem? (actions_of m) i) (rw e refl) v

reveal_fetched-IsMasked :
    (m : Model) (key : ItemKey) (i g : ℕ) (r : Result String)
    → IsMasked m
    → IsMasked (reveal_fetched m key i g r).0
unfolding reveal_fetched is_intact
reveal_fetched-IsMasked m key i g r v = ground arith

totp_fetched-IsMasked :
    (m : Model) (key : ItemKey) (r : Result (List (String × String))) (now : ℤ)
    → IsMasked m
    → IsMasked (totp_fetched m key r now).0
unfolding totp_fetched is_intact
totp_fetched-IsMasked m key r now v = ground arith

tick-IsMasked : (m : Model) (now : ℤ) → IsMasked m → IsMasked (tick m now).0
unfolding tick is_intact
tick-IsMasked m now v = ground arith

escape-IsMasked : (mt : Matcher) (m : Model) → IsMasked m → IsMasked (escape mt m).0
unfolding escape is_intact
escape-IsMasked mt m v = ground (arith, hide-IsMasked mt m v)

open_preferences-IsMasked : (m : Model) → IsMasked m → IsMasked (open_preferences m).0
unfolding open_preferences is_intact
open_preferences-IsMasked m v = ground arith

-- TODO
pub update-IsMasked :
    (u : Unicode) (mt : Matcher) (m : Model) (msg : Msg) (now : ℤ)
    → IsMasked m
    → IsMasked (update u mt m msg now).0
unfolding update toggle_reveal is_intact start_rebind copy_fetched chord_captured
    adjust_clipboard_clear reset_shortcuts data_loaded cache_loaded startup version_probed
    start_login login_line login_finished
update-IsMasked u mt m Msg.toggle now v =
    if_keeps {A = Outcome} (λ o. IsMasked o.0) m.view.visible (hide-IsMasked mt m v)
      (show-IsMasked m now v)
update-IsMasked u mt m Msg.show now v = show-IsMasked m now v
update-IsMasked u mt m Msg.hide now v = hide-IsMasked mt m v
update-IsMasked u mt m (Msg.query_changed query) now v =
    recompute_results-IsMasked mt
      (record m { view = record (m.view) { query = query; selected = 0 } })
      (record { hidden = v.hidden; pinned = v.pinned; waiting = v.waiting })
update-IsMasked u mt m Msg.select_next now v = move_selection-IsMasked m _ v
update-IsMasked u mt m Msg.select_prev now v = move_selection-IsMasked m _ v
update-IsMasked u mt m Msg.page_down now v = move_selection-IsMasked m _ v
update-IsMasked u mt m Msg.page_up now v = move_selection-IsMasked m _ v
update-IsMasked u mt m (Msg.select index) now v = ground arith
update-IsMasked u mt m Msg.refresh_requested now v = request_refresh-IsMasked m v
update-IsMasked u mt m (Msg.data_loaded listing) now v =
    replace_items-IsMasked u mt (refreshed m now) listing
      (record { hidden = v.hidden; pinned = v.pinned; waiting = v.waiting })
update-IsMasked u mt m (Msg.cache_loaded none) now v = v
update-IsMasked u mt m (Msg.cache_loaded (some file)) now v = load_file-IsMasked u mt m file v
update-IsMasked u mt m Msg.open_preferences now v = open_preferences-IsMasked m v
update-IsMasked u mt m (Msg.adjust_clipboard_clear delta) now v =
    save_prefs-IsMasked u mt m
      (record (m.prefs) { clipboard_clear_secs = adjusted m.prefs.clipboard_clear_secs delta }) v
update-IsMasked u mt m (Msg.start_rebind action) now v = ground arith
update-IsMasked u mt m (Msg.chord_captured chord) now v =
    capture_in-IsMasked u mt m m.view.mode chord refl v
update-IsMasked u mt m Msg.reset_shortcuts now v =
    save_prefs-IsMasked u mt m (record (m.prefs) { shortcuts = default_prefs.shortcuts }) v
update-IsMasked u mt m (Msg.prefs_loaded prefs) now v =
    apply_prefs-IsMasked mt m (validated u prefs) v
update-IsMasked u mt m (Msg.refresh_failed e) now v = refresh_failed-IsMasked mt m e v
update-IsMasked u mt m Msg.startup now v = ground arith
update-IsMasked u mt m (Msg.version_probed result) now v = ground arith
update-IsMasked u mt m (Msg.session_probed result) now v = session_probed-IsMasked mt m result v
update-IsMasked u mt m Msg.start_login now v = ground arith
update-IsMasked u mt m (Msg.login_line line) now v = ground arith
update-IsMasked u mt m (Msg.login_finished result) now v = ground arith
update-IsMasked u mt m Msg.copy_primary now v = copy_with-IsMasked m _ _ v
update-IsMasked u mt m Msg.copy_username now v = copy_with-IsMasked m _ _ v
update-IsMasked u mt m Msg.copy_totp now v = copy_with-IsMasked m _ _ v
update-IsMasked u mt m Msg.copy_url now v = copy_with-IsMasked m _ _ v
update-IsMasked u mt m Msg.open_actions now v = ground arith
update-IsMasked u mt m (Msg.activate_action index) now v = activate_action-IsMasked m index v
update-IsMasked u mt m Msg.back now v = leave_mode-IsMasked m v
update-IsMasked u mt m Msg.toggle_reveal now v = toggle_in-IsMasked m m.view.mode refl v
update-IsMasked u mt m (Msg.reveal_fetched key index generation result) now v =
    reveal_fetched-IsMasked m key index generation result v
update-IsMasked u mt m (Msg.totp_fetched key result) now v =
    totp_fetched-IsMasked m key result now v
update-IsMasked u mt m (Msg.tick at) now v = tick-IsMasked m at v
update-IsMasked u mt m (Msg.copy_fetched key result) now v =
    take_pending-IsMasked mt m m.view.pending key result now v
update-IsMasked u mt m (Msg.copy_finished failure) now v = copy_finished-IsMasked mt m failure v
update-IsMasked u mt m Msg.escape now v = escape-IsMasked mt m v
update-IsMasked u mt m (Msg.notice_expired id) now v = ground arith
