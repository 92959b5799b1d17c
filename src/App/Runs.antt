-- ===== src/App/Runs.antt =====
-- src/app/mod.rs: runs of the shell, from its start.
use cosmic_pass.Base.{ℕ, ◌≤◌, refl, Option, List, [], ◌∷◌, if_keeps}
use cosmic_pass.Base.Int.{ℤ}
use cosmic_pass.Base.Unicode.{Unicode}
use cosmic_pass.Search.Index.{Matcher}
use cosmic_pass.State.Types.{Msg}
use cosmic_pass.Config.Types.{Preferences}
use cosmic_pass.Runtime.{Deps}
use cosmic_pass.App.Popup.{take_open_latency, recently_hidden}
use cosmic_pass.App.{CosmicPass, Ran, log_latency}
use cosmic_pass.App.Events.{
  RemoteAction, StoredPreferences, load_preferences, new_app, starts_hidden, init, Arrival, arrive,
  run,
}
use cosmic_pass.App.Arrived.{Keeps, arrive_keeps}
use cosmic_pass.App.Visible.{log_latency_keeps, Agrees, Agrees-of, Agrees-later, dispatch-Agrees}

-- A measurement that is taken is no longer waited for.
latency_taken-Agrees :
    {at : ℕ} {app : CosmicPass}
    → Agrees at app
    → Agrees at (record app { surface = (take_open_latency at app.surface).0 })
unfolding take_open_latency recently_hidden
latency_taken-Agrees g = record { same = g.same; settled = g.settled; awaited = refl }

log_latency-Agrees :
    (at : ℕ) (app : CosmicPass)
    → Agrees at app
    → Agrees at (log_latency app (take_open_latency at app.surface))
log_latency-Agrees at app g =
    let (s, o) = take_open_latency at app.surface in
    let kept = log_latency_keeps app s o in Agrees-of kept.0 kept.1 (latency_taken-Agrees g)

keeps-Agrees : (u : Unicode) (mt : Matcher) (at : ℕ) (now : ℤ) → Keeps u mt at now (Agrees at)
keeps-Agrees u mt at now = record {
  dispatched = λ msg app g. dispatch-Agrees u mt now msg g;
  pressed = λ press app g. Agrees-of refl refl g;
  opened = log_latency-Agrees at;
}

-- The instants do not go back.
abbrev pub InOrder : ℕ → List (Arrival × ℕ × ℤ) → Type 0
InOrder from [] = Unit
InOrder from ((a, at, now) ∷ rest) = (from ≤ at) × InOrder at rest

abbrev pub last_instant : ℕ → List (Arrival × ℕ × ℤ) → ℕ
last_instant from [] = from
last_instant from ((a, at, now) ∷ rest) = last_instant at rest

run-Agrees_from :
    (u : Unicode) (mt : Matcher) (from : ℕ) (arrivals : List (Arrival × ℕ × ℤ)) (app : CosmicPass)
    → InOrder from arrivals
    → Agrees from app
    → Agrees (last_instant from arrivals) (run u mt app arrivals)
unfolding run
run-Agrees_from u mt from [] app o g = g
run-Agrees_from u mt from ((a, at, now) ∷ rest) app o g =
    run-Agrees_from u mt at rest (arrive u mt at now a app) o.1
      (arrive_keeps u mt at now (Agrees at) (keeps-Agrees u mt at now) a app (Agrees-later o.0 g))

new_app-Agrees :
    (at : ℕ) (deps : Deps) (id : ℕ) (prefs : Preferences) → Agrees at (new_app deps id prefs)
unfolding new_app recently_hidden
new_app-Agrees at deps id prefs = record { same = refl; settled = refl; awaited = refl }

init-Agrees :
    (u : Unicode) (mt : Matcher) (at : ℕ) (now : ℤ) (deps : Deps) (id : ℕ)
    (stored : StoredPreferences) (action : Option RemoteAction)
    → Agrees at (init u mt at now deps id stored action).0
unfolding init
init-Agrees u mt at now deps id stored action =
    let started =
      dispatch-Agrees u mt now Msg.startup
        (new_app-Agrees at deps id (load_preferences u stored)) in
    if_keeps (λ (r : Ran). Agrees at r.0) (starts_hidden action) started
      (dispatch-Agrees u mt now Msg.show started)

-- From the start on, whatever arrives at instants that do not go back, the surface is open just when
-- the model holds the window for visible; a surface that is open was not hidden within the last
-- 100 ms; and a measurement of the opening waits only for a surface that is open.
pub run-Agrees :
    (u : Unicode) (mt : Matcher) (at : ℕ) (now : ℤ) (deps : Deps) (id : ℕ)
    (stored : StoredPreferences) (action : Option RemoteAction) (arrivals : List (Arrival × ℕ × ℤ))
    → InOrder at arrivals
    → Agrees
        (last_instant at arrivals)
        (run u mt (init u mt at now deps id stored action).0 arrivals)
run-Agrees u mt at now deps id stored action arrivals o =
    run-Agrees_from u mt at arrivals _ o (init-Agrees u mt at now deps id stored action)
