-- ===== src/App.antt =====
-- src/app/mod.rs: the shell between the window and the reducer. A handler runs at one instant, in
-- milliseconds, and at one time of day; its tasks are listed in their order. The debug log is kept
-- as a list of lines.
mod Tests
pub mod Popup
pub mod Labels
pub mod Events
pub mod Visible
pub mod Arrived
pub mod Runs
pub mod Kept
pub mod Debounced
use cosmic_pass.Base.{
  ℕ, ◌-◌, String, Bool, true, false, ◌&&◌, Option, none, some, List, [], ◌∷◌, ◌++◌, if◌then◌else◌,
  ◌==◌, ltb, unwrap_or, length, decide, string_discrete,
}
use cosmic_pass.Base.Int.{ℤ}
use cosmic_pass.Base.Unicode.{Unicode}
use cosmic_pass.Domain.Items.{AccountId}
use cosmic_pass.Search.Index.{Matcher}
use cosmic_pass.State.Types.{Model, Msg, Effect, SessionState}
use cosmic_pass.State.Update.{update}
use cosmic_pass.Runtime.{
  Deps, Step, show_window, hide_window, future, stream, unhandled, Act, execute,
}
use cosmic_pass.Keys.{KeyPress, KeyContext, map_key}
use cosmic_pass.App.Popup.{
  Surface, Task, focus_search, perform, listen, open_url, snap, recently_hidden,
  mark_show_requested, take_open_latency, show, hide,
}
use cosmic_pass.App.Labels.{LayerEvent, focused, unfocused, done, session_label, effect_name}
use text.Mathlib.Text.{◌==◌ as str_eq}

-- A line of the debug log.
pub data Line : Type 0 where
  session_changed : (from to : String) → Line
  open_latency : ℕ → Line
  effect_skipped : String → Line

pub record CosmicPass : Type 0 where
  pub model : Model
  pub deps : Deps
  pub surface : Surface
  pub show_requested_at : Option ℕ
  pub last_press : Option (ℕ × ℕ)
  pub session_log : SessionState
  pub lines : List Line

pub data Message : Type 0 where
  core : Msg → Message
  key : KeyPress → Message
  layer : LayerEvent → (id : ℕ) → Message
  submit nothing : Message
  row_pressed : ℕ → Message
  url_opened : String → Message

abbrev pub Ran : Type 0
Ran = CosmicPass × List Task

abbrev pub chain : Ran → (CosmicPass → Ran) → Ran
chain (app, tasks) f = let (after, more) = f app in (after, tasks ++ more)

abbrev pub on_surface : CosmicPass → Surface × List Task → Ran
on_surface app (s, tasks) = (record app { surface = s }, tasks)

abbrev pub put_visible : CosmicPass → Bool → CosmicPass
put_visible app up = record app {
  model = record (app.model) { view = record (app.model.view) { visible = up } };
}

-- `Step::ShowWindow`: the key press that hid the window does not open it again.
unfoldable pub show_surface : ℕ → CosmicPass → Ran
unfolding recently_hidden mark_show_requested show
show_surface at app =
    let requested_at = unwrap_or app.show_requested_at at in
    if recently_hidden at app.surface
    then (put_visible app false, [])
    else on_surface app (show (mark_show_requested requested_at app.surface))

unfoldable pub run_step : ℕ → CosmicPass → Step → Ran
unfolding show_surface hide effect_name
run_step at app show_window = show_surface at app
run_step at app hide_window = on_surface app (hide at app.surface)
run_step at app (future act answer) = (app, perform act answer ∷ [])
run_step at app (stream msgs) = (app, listen msgs ∷ [])
run_step at app (unhandled e) =
    (record app { lines = effect_skipped (effect_name e) ∷ app.lines }, [])

-- `CosmicPass::run_effect`.
unfoldable pub run_effect : ℕ → CosmicPass → Effect → Ran
unfolding run_step execute
run_effect at app e = run_step at app (execute e app.deps app.model)

-- The effects of a message, in order.
unfoldable pub run_effects : ℕ → CosmicPass → List Effect → Ran
unfolding run_effect
run_effects at app [] = (app, [])
run_effects at app (e ∷ fx) = chain (run_effect at app e) (λ after. run_effects at after fx)

-- The derived equality of sessions.
unfoldable pub same_session : SessionState → SessionState → Bool
same_session SessionState.unknown SessionState.unknown = true
same_session SessionState.checking SessionState.checking = true
same_session SessionState.signed_out SessionState.signed_out = true
same_session SessionState.locked SessionState.locked = true
same_session SessionState.cli_missing SessionState.cli_missing = true
same_session SessionState.logging_in SessionState.logging_in = true
same_session (SessionState.signed_in a) (SessionState.signed_in b) = str_eq a b
same_session (SessionState.error a) (SessionState.error b) = str_eq a b
same_session _ _ = false

-- A session that differs from the last one logged is logged, once.
unfoldable pub log_session : CosmicPass → CosmicPass
unfolding same_session session_label
log_session app = if same_session app.session_log app.model.session then app else record app {
  session_log = app.model.session;
  lines =
      session_changed (session_label app.session_log) (session_label app.model.session) ∷ app.lines;
}

abbrev pub asks_to_show : Msg → Bool
asks_to_show Msg.show = true
asks_to_show Msg.toggle = true
asks_to_show _ = false

abbrev pub requested : ℕ → Msg → CosmicPass → CosmicPass
requested at msg app = if asks_to_show msg then record app { show_requested_at = some at } else app

-- The model after a message, and the effects that are still to be run.
abbrev pub reduced : Unicode → Matcher → Msg → ℤ → CosmicPass → CosmicPass × List Effect
reduced u mt msg now app =
    let (model, effects) = update u mt app.model msg now in
    (log_session (record app { model = model }), effects)

abbrev pub end_request : Ran → Ran
end_request (app, tasks) = (record app { show_requested_at = none }, tasks)

abbrev pub run_reduced : ℕ → CosmicPass × List Effect → Ran
run_reduced at (app, effects) = end_request (run_effects at app effects)

-- A press on a row, and whether it is the second one on that row in time.
abbrev double_click : ℕ
double_click = 400

abbrev pub is_double : ℕ → ℕ → Option (ℕ × ℕ) → Bool
is_double i at none = false
is_double i at (some (row, before)) = row == i && ltb (at - before) double_click

abbrev pub log_latency : CosmicPass → Surface × Option ℕ → CosmicPass
log_latency app (s, none) = record app { surface = s }
log_latency app (s, some elapsed) = record app {
  surface = s;
  lines = open_latency elapsed ∷ app.lines;
}

abbrev pub scrolls : Msg → Bool
scrolls Msg.select_next = true
scrolls Msg.select_prev = true
scrolls Msg.page_down = true
scrolls Msg.page_up = true
scrolls _ = false

-- `CosmicPass::scroll_to_selection`: the share of the list at which the selected row stands.
unfoldable pub scroll_to_selection : CosmicPass → Ran
scroll_to_selection app =
    let len = length app.model.view.results in
    (app, if ltb len 2 then [] else snap app.model.view.selected (len - 1) ∷ [])

module _ (u : Unicode) (mt : Matcher) (at : ℕ) (now : ℤ) where
  -- `CosmicPass::dispatch`.
  unfoldable pub dispatch : Msg → CosmicPass → Ran
  unfolding update log_session run_effects
  dispatch msg app = run_reduced at (reduced u mt msg now (requested at msg app))

  unfoldable pub press_row : ℕ → CosmicPass → Ran
  unfolding dispatch
  press_row i app =
      let double = is_double i at app.last_press in
      let select = dispatch (Msg.select i) (record app { last_press = some (i, at) }) in
      let copy =
        chain select (λ after. dispatch Msg.copy_primary (record after { last_press = none })) in
      if double then copy else select

  abbrev pub press_mapped : CosmicPass → Option Msg → Ran
  press_mapped app none = (app, [])
  press_mapped app (some msg) =
      let task = dispatch msg app in if scrolls msg then chain task scroll_to_selection else task

  -- `CosmicPass::on_key`.
  unfoldable pub on_key : KeyPress → CosmicPass → Ran
  unfolding map_key dispatch scroll_to_selection
  on_key press app =
      let ctx : KeyContext = record { caret_at_end = str_eq app.model.view.query "" } in
      press_mapped app (map_key press app.model.view.mode app.model.prefs ctx)

  abbrev pub on_layer : CosmicPass → LayerEvent → Ran
  on_layer app unfocused = dispatch Msg.hide app
  on_layer app focused = (log_latency app (take_open_latency at app.surface), focus_search ∷ [])
  on_layer app done = (app, [])

  -- `CosmicPass::update_inner`.
  unfoldable pub update_inner : Message → CosmicPass → Ran
  unfolding dispatch on_key press_row take_open_latency
  update_inner (core msg) app = dispatch msg app
  update_inner (key press) app = on_key press app
  update_inner (layer event id) app =
      let own = on_layer app event in if id == app.surface.id then own else (app, [])
  update_inner submit app = (app, [])
  update_inner nothing app = (app, [])
  update_inner (url_opened url) app =
      let (after, tasks) = dispatch Msg.hide app in (after, open_url url ∷ tasks)
  update_inner (row_pressed i) app = press_row i app
