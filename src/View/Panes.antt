-- ===== src/View/Panes.antt =====
-- src/app/view: the widgets of each pane, in their order, with the messages that they send. Layout
-- and styling are the toolkit's.
use cosmic_pass.Base.{
  ℕ, suc, String, Bool, true, false, Option, none, some, List, [], ◌∷◌, ◌++◌, map, if◌then◌else◌,
  ◌==◌, is_some_and, and_then, map_option, get_elem?, decide, unwrap_or,
}
use cosmic_pass.Base.Int.{ℤ}
use cosmic_pass.Base.Text.{chars}
use cosmic_pass.Base.Unicode.{Unicode}
use cosmic_pass.Config.Types.{
  Action, copy_primary, sign_in, retry, reveal, rank, action_label, all_of_them, show_chord,
}
use cosmic_pass.Config.Validate.{chord}
use cosmic_pass.Domain.Items.{ItemSummary, ItemKey, key_discrete, display_title}
use cosmic_pass.Actions.Rows.{ActionEntry}
use cosmic_pass.Search.Index.{ResultRow}
use cosmic_pass.State.Types.{SessionState, Model, Msg}
use cosmic_pass.State.Query.{can_start_login, target_item, actions_of}
use cosmic_pass.Keys.{step_up, step_down}
use cosmic_pass.App.{Message, core, row_pressed, url_opened}
use cosmic_pass.View.{
  Pane, pane, notices, line, notice_text, empty_list_message, icon_name, panel_text, rebind_label,
  timeout_text,
}
use cosmic_pass.View.Titles.{title_runs}
use cosmic_pass.View.Rows.{
  reveal_state, value_hint, fetching, shortcut_caption, empty_notice, reveal_caption, kind_label,
}
use Prim.Native.Char.{Char}
use Prim.Native.String.{◌++◌ as text_append}
use text.Mathlib.Text.{◌==◌ as str_eq}

pub data Part : Type 0 where
  icon words : String → Part
  runs : List (List Char × Bool) → Part

-- A button is marked if it is selected. The search field shows the query.
pub data Widget : Type 0 where
  shows : Part → Widget
  button : List Part → (selected : Bool) → Message → Widget
  search_input : (query : String) → Widget

abbrev pub caption : String → Widget
caption s = shows (words s)

abbrev spinner : Bool → List Part
spinner true = icon "view-refresh-symbolic" ∷ []
spinner false = []

-- `search_field`.
unfoldable pub search_field : Model → List Widget
search_field m = search_input m.view.query ∷ map shows (spinner m.data_state.refreshing)

-- `title`: the placeholder of a blank title has no runs.
unfoldable pub title_part : ItemSummary → List ℕ → Part
unfolding display_title title_runs
title_part item [] = words (display_title item)
title_part item (i ∷ is) =
    if str_eq (display_title item) item.title
    then runs (title_runs (chars (display_title item)) (i ∷ is))
    else words (display_title item)

unfoldable pub is_pending : Model → ItemKey → Bool
unfolding decide
is_pending m key = is_some_and m.view.pending (λ p. decide (key_discrete p.key key))

unfoldable pub result_button : Model → ℕ → ResultRow → ItemSummary → Widget
unfolding title_part is_pending
result_button m i hit item =
    button
      (icon (icon_name item.kind)
          ∷ title_part item hit.title_indices
          ∷ map words (line item.subtitle)
        ++ (spinner (is_pending m item.key) ++ words item.vault_name ∷ []))
      (i == m.view.selected) (row_pressed i)

abbrev pub found_button : Model → ℕ → ResultRow → Option ItemSummary → List Widget
found_button m i hit none = []
found_button m i hit (some item) = result_button m i hit item ∷ []

-- The rows from a position on. A hit whose item is not loaded has none.
unfoldable pub result_buttons : Model → ℕ → List ResultRow → List Widget
unfolding get_elem? result_button
result_buttons m i [] = []
result_buttons m i (hit ∷ hits) =
    found_button m i hit (get_elem? m.data_state.items hit.item) ++ result_buttons m (suc i) hits

abbrev pub rows_or_message : Model → List ResultRow → List Widget
rows_or_message m [] = caption (empty_list_message m) ∷ []
rows_or_message m (hit ∷ hits) = result_buttons m 0 (hit ∷ hits)

-- `list::view`.
unfoldable pub list_view : Model → List Widget
unfolding search_field notices empty_list_message result_buttons
list_view m = search_field m ++ (map caption (notices m) ++ rows_or_message m m.view.results)

abbrev pub pass_cli_url : String
pass_cli_url = "https://protonpass.github.io/pass-cli/"

abbrev link_button : String → Widget
link_button url = button (words url ∷ []) false (url_opened url)

abbrev is_cli_missing : SessionState → Bool
is_cli_missing SessionState.cli_missing = true
is_cli_missing _ = false

-- The sessions that can be tried again.
abbrev pub is_stuck : SessionState → Bool
is_stuck SessionState.locked = true
is_stuck SessionState.cli_missing = true
is_stuck (SessionState.error message) = true
is_stuck _ = false

abbrev only_if : Bool → Widget → List Widget
only_if true w = w ∷ []
only_if false w = []

abbrev detail_line : String → List Widget
detail_line detail = if str_eq detail "" then [] else caption detail ∷ []

module _ (u : Unicode) where
  -- A button's text, with the chord that does the same.
  unfoldable pub with_chord : Model → String → Action → String
  unfolding show_chord chord
  with_chord m s action =
      text_append s (text_append " (" (text_append (show_chord u (chord m.prefs action)) ")"))

  unfoldable pub panel_buttons : Model → List Widget
  unfolding with_chord can_start_login
  panel_buttons m =
      map link_button (line m.login_url)
      ++ (only_if (is_cli_missing m.session) (link_button pass_cli_url)
          ++ (only_if (can_start_login m.session)
                (button (words (with_chord m "Sign in" sign_in) ∷ []) false (core Msg.start_login))
              ++ only_if (is_stuck m.session)
                  (button (words (with_chord m "Try again" retry) ∷ []) false (core Msg.startup))))

  -- `status::panel`.
  unfoldable pub panel : Model → Option (List Widget)
  unfolding panel_text panel_buttons
  panel m =
      map_option
        (λ (p : String × String × String).
          shows (icon p.0) ∷ caption p.1 ∷ detail_line p.2 ++ panel_buttons m)
        (panel_text m m.session)

  -- `actions::view`: the row's own chord, where it is not the one that copies any row.
  abbrev own_chord : Model → ActionEntry → Option String
  own_chord m entry =
      and_then entry.shortcut
        (λ a. if rank a == rank copy_primary then none else some (show_chord u (chord m.prefs a)))

  unfoldable pub action_button : Model → (selected : ℕ) → ℤ → ℕ → ActionEntry → Widget
  unfolding show_chord chord value_hint fetching rank
  action_button m selected now i entry =
      let activation = show_chord u (chord m.prefs copy_primary) in
      let caption_of =
        shortcut_caption (own_chord m entry) (if i == selected then some activation else none) in
      button
        (words entry.label
            ∷ words (value_hint m entry.source entry.field_index now)
            ∷ spinner (fetching m entry.source entry.field_index)
          ++ words caption_of ∷ [])
        (i == selected) (core (Msg.activate_action (some i)))

  unfoldable pub action_buttons : Model → (selected : ℕ) → ℤ → ℕ → List ActionEntry → List Widget
  unfolding action_button
  action_buttons m selected now i [] = []
  action_buttons m selected now i (e ∷ es) =
      action_button m selected now i e ∷ action_buttons m selected now (suc i) es

  unfoldable pub action_list : Model → (selected : ℕ) → ℤ → List ActionEntry → List Widget
  unfolding action_buttons reveal_state get_elem? show_chord chord
  action_list m selected now entries = elim (empty_notice entries) [
    | some text ↦ caption text ∷ []
    | none ↦
        action_buttons m selected now 0 entries
        ++ caption (
            reveal_caption
              (map_option (λ e. reveal_state m e.source e.field_index) (get_elem? entries selected))
              (show_chord u (chord m.prefs reveal)) (show_chord u (chord m.prefs copy_primary)))
          ∷ []
  ]

  abbrev back_button : Widget
  back_button = button (icon "go-previous-symbolic" ∷ []) false (core Msg.back)

  abbrev item_actions : Model → (selected : ℕ) → ℤ → Option ItemSummary → List Widget
  item_actions m selected now none = caption "Item no longer exists" ∷ []
  item_actions m selected now (some item) =
      back_button
        ∷ shows (icon (icon_name item.kind))
        ∷ caption (display_title item)
        ∷ caption (kind_label item.kind)
        ∷ map shows (spinner (is_pending m item.key))
      ++ (caption item.vault_name ∷ map caption (notices m)
          ++ action_list m selected now (actions_of m))

  unfoldable pub actions_view : Model → (selected : ℕ) → ℤ → List Widget
  unfolding target_item display_title is_pending notices action_list actions_of
  actions_view m selected now = item_actions m selected now (target_item m)

  abbrev step_button : String → ℤ → Widget
  step_button name delta = button (icon name ∷ []) false (core (Msg.adjust_clipboard_clear delta))

  unfoldable pub shortcut_rows : Model → List Action → List Widget
  unfolding action_label rebind_label
  shortcut_rows m [] = []
  shortcut_rows m (a ∷ rest) =
      caption (action_label a)
      ∷ button (words (rebind_label u m a) ∷ []) false (core (Msg.start_rebind a))
      ∷ shortcut_rows m rest

  -- `preferences::view`.
  unfoldable pub preferences_view : Model → List Widget
  unfolding timeout_text shortcut_rows
  preferences_view m =
      back_button
        ∷ caption "Preferences"
        ∷ caption "Clear copied secrets after"
        ∷ step_button "list-remove-symbolic" step_down
        ∷ caption (timeout_text m)
        ∷ step_button "list-add-symbolic" step_up
        ∷ caption "Keyboard shortcuts"
        ∷ caption
            "Left/Right adjust the timeout · press a shortcut to rebind it · Ctrl+Shift+Delete resets"
        ∷ map caption (line (notice_text m.view.notice))
      ++ (shortcut_rows m all_of_them
          ++ button (words "Reset shortcuts" ∷ []) false (core Msg.reset_shortcuts) ∷ [])

  -- `popup`: a session panel stands in for the result list only.
  abbrev pub in_pane : Model → ℤ → Pane → List Widget
  in_pane m now (Pane.actions selected) = actions_view m selected now
  in_pane m now Pane.preferences = preferences_view m
  in_pane m now Pane.list = unwrap_or (panel m) (list_view m)

  unfoldable pub popup : Model → ℤ → List Widget
  unfolding actions_view preferences_view panel list_view
  popup m now = in_pane m now (pane m.view.mode)
