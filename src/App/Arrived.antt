-- ===== src/App/Arrived.antt =====
-- src/app/mod.rs: what every handler keeps, by what dispatching, a press and the focus keep.
use cosmic_pass.Base.{ℕ, Option, none, some, Bool-cases, if_keeps, inl, inr, ◌==◌}
use cosmic_pass.Base.Int.{ℤ}
use cosmic_pass.Base.Unicode.{Unicode}
use cosmic_pass.Search.Index.{Matcher}
use cosmic_pass.State.Types.{Msg}
use cosmic_pass.App.Popup.{take_open_latency, recently_hidden}
use cosmic_pass.App.Labels.{LayerEvent, focused, unfocused, done}
use cosmic_pass.App.{
  CosmicPass, Ran, Message, core, key, layer, submit, nothing, row_pressed, url_opened,
  press_mapped, log_latency, on_layer, dispatch, press_row, on_key, update_inner,
  scroll_to_selection, is_double, scrolls,
}
use cosmic_pass.App.Events.{
  RemoteAction, Details, activate, open_files, activate_action, dbus_activation, Arrival, message,
  activation, arrive,
}

-- What a handler must not break, at its instant and time of day.
pub record Keeps (u : Unicode) (mt : Matcher) (at : ℕ) (now : ℤ) (Q : CosmicPass → Type 0)
    : Type 0 where
  pub dispatched : (msg : Msg) (app : CosmicPass) → Q app → Q (dispatch u mt at now msg app).0
  pub pressed :
      (press : Option (ℕ × ℕ)) (app : CosmicPass) → Q app → Q (record app { last_press = press })
  pub opened : (app : CosmicPass) → Q app → Q (log_latency app (take_open_latency at app.surface))

module _ (u : Unicode) (mt : Matcher) (at : ℕ) (now : ℤ) (Q : CosmicPass → Type 0)
    (keeps : Keeps u mt at now Q) where
  press_row_keeps : (i : ℕ) (app : CosmicPass) → Q app → Q (press_row u mt at now i app).0
  unfolding press_row
  press_row_keeps i app q =
      let once = keeps.dispatched (Msg.select i) _ (keeps.pressed (some (i, at)) app q) in
      elim (Bool-cases (is_double i at app.last_press)) [
        | inl e ↦ rw e (keeps.dispatched Msg.copy_primary _ (keeps.pressed none _ once))
        | inr e ↦ rw e once
      ]

  press_mapped_keeps :
      (o : Option Msg) (app : CosmicPass) → Q app → Q (press_mapped u mt at now app o).0
  unfolding scroll_to_selection
  press_mapped_keeps none app q = q
  press_mapped_keeps (some msg) app q =
      let after = keeps.dispatched msg app q in
      if_keeps (λ (r : Ran). Q r.0) (scrolls msg) after after

  on_layer_keeps :
      (event : LayerEvent) (app : CosmicPass) → Q app → Q (on_layer u mt at now app event).0
  on_layer_keeps focused app q = keeps.opened app q
  on_layer_keeps unfocused app q = keeps.dispatched Msg.hide app q
  on_layer_keeps done app q = q

  update_inner_keeps :
      (m : Message) (app : CosmicPass) → Q app → Q (update_inner u mt at now m app).0
  unfolding update_inner on_key
  update_inner_keeps (core msg) app q = keeps.dispatched msg app q
  update_inner_keeps (key press) app q = press_mapped_keeps _ app q
  update_inner_keeps (layer event id) app q =
      if_keeps (λ (r : Ran). Q r.0) (id == app.surface.id) (on_layer_keeps event app q) q
  update_inner_keeps submit app q = q
  update_inner_keeps nothing app q = q
  update_inner_keeps (row_pressed i) app q = press_row_keeps i app q
  update_inner_keeps (url_opened url) app q = keeps.dispatched Msg.hide app q

  dbus_activation_keeps :
      (d : Details) (app : CosmicPass) → Q app → Q (dbus_activation u mt at now d app).0
  unfolding dbus_activation
  dbus_activation_keeps activate app q =
      if_keeps (λ (r : Ran). Q r.0) (recently_hidden at app.surface) q
        (keeps.dispatched Msg.toggle app q)
  dbus_activation_keeps (activate_action none) app q = q
  dbus_activation_keeps (activate_action (some RemoteAction.show)) app q =
      keeps.dispatched Msg.show app q
  dbus_activation_keeps (activate_action (some RemoteAction.hide)) app q =
      keeps.dispatched Msg.hide app q
  dbus_activation_keeps (activate_action (some RemoteAction.refresh)) app q =
      keeps.dispatched Msg.refresh_requested app q
  dbus_activation_keeps (activate_action (some RemoteAction.background)) app q = q
  dbus_activation_keeps open_files app q = q

  -- Whatever arrives, what dispatching, a press and the focus keep is kept.
  pub arrive_keeps : (a : Arrival) (app : CosmicPass) → Q app → Q (arrive u mt at now a app)
  unfolding arrive
  arrive_keeps (message m) app q = update_inner_keeps m app q
  arrive_keeps (activation d) app q = dbus_activation_keeps d app q
