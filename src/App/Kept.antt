-- ===== src/App/Kept.antt =====
-- src/app/mod.rs: what the reducer keeps of its model is kept by the shell around it.
use cosmic_pass.Base.{ℕ, refl, Bool, false, Option, List, [], ◌∷◌, if_keeps}
use cosmic_pass.Base.Int.{ℤ}
use cosmic_pass.Base.Unicode.{Unicode}
use cosmic_pass.Search.Index.{Matcher}
use cosmic_pass.State.View.{is_intact}
use cosmic_pass.State.Types.{Msg, Effect}
use cosmic_pass.Runtime.{Deps}
use cosmic_pass.State.Invariant.Sound.{IsSound, new_model-IsSound, update-IsSound}
use cosmic_pass.App.Popup.{recently_hidden, take_open_latency}
use cosmic_pass.App.{
  CosmicPass, Ran, put_visible, show_surface, run_effect, run_effects, requested, reduced, dispatch,
}
use cosmic_pass.App.Events.{
  RemoteAction, StoredPreferences, load_preferences, new_app, starts_hidden, init, Arrival, arrive,
  run,
}
use cosmic_pass.App.Arrived.{Keeps, arrive_keeps}
use cosmic_pass.App.Visible.{run_effect_quiet, reduced_keeps, requested_keeps, log_latency_keeps}

-- A refused show takes back only that the window is visible.
put_visible-IsSound :
    (app : CosmicPass) (up : Bool) → IsSound app.model → IsSound (put_visible app up).model
unfolding is_intact
put_visible-IsSound app up v = record {
  masked = record {
    hidden = v.masked.hidden;
    pinned = v.masked.pinned;
    waiting = v.masked.waiting;
  };
  indexed = record {
    indexed = v.indexed.indexed;
    within = v.indexed.within;
    capped = v.indexed.capped;
    in_rows = v.indexed.in_rows;
  };
  accounted = record {
    owned = v.accounted.owned;
    capped = v.accounted.capped;
    distinct = v.accounted.distinct;
  };
}

show_surface-IsSound :
    (at : ℕ) (app : CosmicPass) → IsSound app.model → IsSound (show_surface at app).0.model
unfolding show_surface
show_surface-IsSound at app v =
    if_keeps (λ (r : Ran). IsSound r.0.model) (recently_hidden at app.surface)
      (put_visible-IsSound app false v) v

run_effect-IsSound :
    (at : ℕ) (app : CosmicPass) (e : Effect)
    → IsSound app.model
    → IsSound (run_effect at app e).0.model
unfolding run_effect
run_effect-IsSound at app Effect.show_window v = show_surface-IsSound at app v
run_effect-IsSound at app Effect.hide_window v = v
run_effect-IsSound at app e v = rw (run_effect_quiet at app e refl).1 v

run_effects-IsSound :
    (at : ℕ) (app : CosmicPass) (fx : List Effect)
    → IsSound app.model
    → IsSound (run_effects at app fx).0.model
unfolding run_effects
run_effects-IsSound at app [] v = v
run_effects-IsSound at app (e ∷ fx) v =
    run_effects-IsSound at (run_effect at app e).0 fx (run_effect-IsSound at app e v)

dispatch-IsSound :
    (u : Unicode) (mt : Matcher) (at : ℕ) (now : ℤ) (msg : Msg) (app : CosmicPass)
    → IsSound app.model
    → IsSound (dispatch u mt at now msg app).0.model
unfolding dispatch
dispatch-IsSound u mt at now msg app v =
    let base = requested at msg app in
    let (after, fx) = reduced u mt msg now base in
    let v' : IsSound base.model = rw (requested_keeps at msg app).1 v in
    run_effects-IsSound at after fx
      (rw (reduced_keeps u mt msg now base).1 (update-IsSound u mt base.model msg now v'))

keeps-IsSound :
    (u : Unicode) (mt : Matcher) (at : ℕ) (now : ℤ) → Keeps u mt at now (λ app. IsSound app.model)
keeps-IsSound u mt at now = record {
  dispatched = dispatch-IsSound u mt at now;
  pressed = λ press app v. v;
  opened =
      λ app v. let (s, o) = take_open_latency at app.surface in rw (log_latency_keeps app s o).1 v;
}

run_from-IsSound :
    (u : Unicode) (mt : Matcher) (arrivals : List (Arrival × ℕ × ℤ)) (app : CosmicPass)
    → IsSound app.model
    → IsSound (run u mt app arrivals).model
unfolding run
run_from-IsSound u mt [] app v = v
run_from-IsSound u mt ((a, at, now) ∷ rest) app v =
    run_from-IsSound u mt rest (arrive u mt at now a app)
      (arrive_keeps u mt at now (λ app. IsSound app.model) (keeps-IsSound u mt at now) a app v)

init-IsSound :
    (u : Unicode) (mt : Matcher) (at : ℕ) (now : ℤ) (deps : Deps) (id : ℕ)
    (stored : StoredPreferences) (action : Option RemoteAction)
    → IsSound (init u mt at now deps id stored action).0.model
unfolding init new_app
init-IsSound u mt at now deps id stored action =
    let started =
      dispatch-IsSound u mt at now Msg.startup (new_app deps id (load_preferences u stored))
        (new_model-IsSound u mt (load_preferences u stored)) in
    if_keeps (λ (r : Ran). IsSound r.0.model) (starts_hidden action) started
      (dispatch-IsSound u mt at now Msg.show
        (dispatch u mt at now Msg.startup (new_app deps id (load_preferences u stored))).0 started)

-- From the start on, whatever arrives in whatever order, the model in the shell has the invariants of
-- the reducer, also where the shell takes back a show: secrets are revealed only in the action
-- list and from an unedited item, rows and selection stand for items, and the data is recorded as
-- that of the account that is signed in.
pub run-IsSound :
    (u : Unicode) (mt : Matcher) (at : ℕ) (now : ℤ) (deps : Deps) (id : ℕ)
    (stored : StoredPreferences) (action : Option RemoteAction) (arrivals : List (Arrival × ℕ × ℤ))
    → IsSound (run u mt (init u mt at now deps id stored action).0 arrivals).model
run-IsSound u mt at now deps id stored action arrivals =
    run_from-IsSound u mt arrivals _ (init-IsSound u mt at now deps id stored action)
