-- ===== src/Cli/Started.antt =====
-- src/main.rs, src/app/mod.rs: whether the window is open once the program has started.
use cosmic_pass.Base.{
  ℕ, ◌≡◌, refl, ◌∙◌, Bool, true, false, not, Option, none, some, List, [], ◌∷◌, arith, Bool-cases,
  inl, inr,
}
use cosmic_pass.Base.Int.{ℤ}
use cosmic_pass.Base.Unicode.{Unicode}
use cosmic_pass.Config.Types.{Preferences}
use cosmic_pass.Search.Index.{Matcher}
use cosmic_pass.State.Types.{Model, Msg, Effect, new_model}
use cosmic_pass.State.View.{show, request_refresh}
use cosmic_pass.State.Session.{startup}
use cosmic_pass.State.Update.{update}
use cosmic_pass.State.Window.Parts.{window_asks}
use cosmic_pass.Runtime.{Deps}
use cosmic_pass.App.Popup.{new_surface, recently_hidden}
use cosmic_pass.App.{CosmicPass, run_effect, run_effects, requested, reduced, dispatch}
use cosmic_pass.App.Events.{
  RemoteAction, StoredPreferences, load_preferences, new_app, starts_hidden, init,
}
use cosmic_pass.App.Visible.{dispatch_quiet, run_effects_quiet, reduced_keeps}
use cosmic_pass.Cli.{Command, clipboard_serve, Cli, run, main}

abbrev after_first : List Effect → List Effect
after_first [] = []
after_first (e ∷ fx) = fx

-- A model that holds the window for hidden asks first for the window, and for nothing else of it.
show_asks :
    (m : Model) (now : ℤ)
    → m.view.visible ≡ false
    → ((show m now).1 ≡ Effect.show_window ∷ after_first (show m now).1)
      × (window_asks (after_first (show m now).1) ≡ [])
unfolding show request_refresh
show_asks m now h = ground arith

opens_surface :
    (at : ℕ) (app : CosmicPass)
    → app.surface.visible ≡ false
    → app.surface.last_hide ≡ none
    → (run_effect at app Effect.show_window).0.surface.visible ≡ true
unfolding run_effect recently_hidden
opens_surface at app v h = ground arith

opened_first :
    (at : ℕ) (app : CosmicPass) (fx rest : List Effect)
    → fx ≡ Effect.show_window ∷ rest
    → window_asks rest ≡ []
    → app.surface.visible ≡ false
    → app.surface.last_hide ≡ none
    → (run_effects at app fx).0.surface.visible ≡ true
unfolding run_effects
opened_first at app fx rest e q v h =
    let after = (run_effect at app Effect.show_window).0 in
    rw (e, run_effects) (rw (run_effects_quiet at after rest q).0 (opens_surface at app v h))

show_told :
    (u : Unicode) (mt : Matcher) (m : Model) (now : ℤ)
    → m.view.visible ≡ false
    → ((update u mt m Msg.show now).1
        ≡ Effect.show_window ∷ after_first (update u mt m Msg.show now).1)
      × (window_asks (after_first (update u mt m Msg.show now).1) ≡ [])
unfolding update
show_told u mt m now h = show_asks m now h

startup_asks :
    (u : Unicode) (mt : Matcher) (m : Model) (now : ℤ)
    → window_asks (update u mt m Msg.startup now).1 ≡ []
unfolding update startup
startup_asks u mt m now = refl

startup_hidden :
    (u : Unicode) (mt : Matcher) (prefs : Preferences) (now : ℤ)
    → (update u mt (new_model prefs) Msg.startup now).0.view.visible ≡ false
unfolding update startup new_model
startup_hidden u mt prefs now = refl

new_app_lem :
    (deps : Deps) (id : ℕ) (prefs : Preferences)
    → ((new_app deps id prefs).surface ≡ new_surface id)
      × ((new_app deps id prefs).model ≡ new_model prefs)
unfolding new_app
new_app_lem deps id prefs = (refl, refl)

module _ (u : Unicode) (mt : Matcher) (at : ℕ) (now : ℤ) where
  show_opens :
      (app : CosmicPass)
      → app.model.view.visible ≡ false
      → app.surface.visible ≡ false
      → app.surface.last_hide ≡ none
      → (dispatch u mt at now Msg.show app).0.surface.visible ≡ true
  unfolding dispatch
  show_opens app m v h =
      let base = requested at Msg.show app in
      let red = reduced_keeps u mt Msg.show now base in
      let (after, fx) = reduced u mt Msg.show now base in
      let asks = show_told u mt app.model now m in
      opened_first at after fx (after_first fx) asks.0 asks.1 (rw red.0 v) (rw red.0 h)

  started_closed :
      (deps : Deps) (id : ℕ) (prefs : Preferences)
      → (let app = (dispatch u mt at now Msg.startup (new_app deps id prefs)).0 in
          (app.surface ≡ new_surface id) × (app.model.view.visible ≡ false))
  started_closed deps id prefs =
      let quiet =
        dispatch_quiet u mt at now Msg.startup (new_app deps id prefs) (startup_asks u mt _ now) in
      let new = new_app_lem deps id prefs in
      (quiet.0 ∙ new.0, rw (quiet.1, new.1) (startup_hidden u mt prefs now))

  init_opens :
      (deps : Deps) (id : ℕ) (stored : StoredPreferences) (action : Option RemoteAction)
      → (init u mt at now deps id stored action).0.surface.visible ≡ not (starts_hidden action)
  unfolding init
  init_opens deps id stored action =
      let prefs = load_preferences u stored in
      let app = (dispatch u mt at now Msg.startup (new_app deps id prefs)).0 in
      let closed = started_closed deps id prefs in
      elim (Bool-cases (starts_hidden action)) [
        | inl e ↦ rw e (rw closed.0 refl)
        | inr e ↦ rw e (show_opens app closed.1 (rw closed.0 refl) (rw closed.0 refl))
      ]

-- The command lines of which it is documented whether they show the window: those without a command, and
-- `show` and `hide`, without `--background`.
abbrev pub is_documented : Bool → Option Command → Bool
is_documented background none = true
is_documented background (some Command.show) = not background
is_documented background (some Command.hide) = not background
is_documented background (some command) = false

-- What is documented of them.
abbrev pub shows_window : Bool → Option Command → Bool
shows_window background (some Command.hide) = false
shows_window background (some command) = true
shows_window background none = not background

action_shows :
    (background : Bool) (command : Option Command) (action : Option RemoteAction)
    → is_documented background command ≡ true
    → main (record { background = background; command = command }) ≡ run action
    → not (starts_hidden action) ≡ shows_window background command
unfolding main
action_shows true none action d h = ground arith
action_shows false none action d h = ground arith
action_shows background (some Command.show) action d h = ground arith
action_shows background (some Command.hide) action d h = ground arith
action_shows background (some Command.refresh) action d h = absurd (cc d)
action_shows background (some (clipboard_serve timeout secret)) action d h = absurd (cc d)

-- Once the program has started, whatever preferences were stored, its window is open just when the
-- documents say so: without a command unless `--background` is given; with `show`, and not with
-- `hide`, if `--background` is not given as well. Of other command lines this says nothing.
pub main_opens :
    (u : Unicode) (mt : Matcher) (at : ℕ) (now : ℤ) (deps : Deps) (id : ℕ)
    (stored : StoredPreferences) (cli : Cli) (action : Option RemoteAction)
    → is_documented cli.background cli.command ≡ true
    → main cli ≡ run action
    → (init u mt at now deps id stored action).0.surface.visible
      ≡ shows_window cli.background cli.command
main_opens u mt at now deps id stored cli action d h =
    init_opens u mt at now deps id stored action
    ∙ action_shows cli.background cli.command action d h
