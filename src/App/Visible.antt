-- ===== src/App/Visible.antt =====
-- src/app/mod.rs, src/app/surface.rs: the surface and the model agree on whether the window is open.
use cosmic_pass.Base.{
  ℕ, ◌≤◌, ◌≡◌, refl, ap, ◌∙◌, Bool, true, false, not, ◌&&◌, List, [], ◌∷◌, arith, Option, some,
  none, is_some,
}
use cosmic_pass.Base.Int.{ℤ}
use cosmic_pass.Base.Unicode.{Unicode}
use cosmic_pass.Search.Index.{Matcher}
use cosmic_pass.State.Types.{Msg, Effect}
use cosmic_pass.State.Update.{update}
use cosmic_pass.State.Window.{update-Tells}
use cosmic_pass.State.Window.Parts.{window_asks, told}
use cosmic_pass.App.Popup.{Surface, recently_hidden}
use cosmic_pass.App.{
  CosmicPass, log_latency, show_surface, run_effect, run_effects, log_session, requested, reduced,
  dispatch,
}

-- The surface is open just when the model holds the window for visible; an open surface was not
-- hidden a moment ago; a measurement waits only for an open surface.
pub record Agrees (at : ℕ) (app : CosmicPass) : Type 0 where
  pub same : app.surface.visible ≡ app.model.view.visible
  pub settled : (app.surface.visible && recently_hidden at app.surface) ≡ false
  pub awaited : (is_some app.surface.pending_show && not app.surface.visible) ≡ false

pub Agrees-of :
    {at : ℕ} {a b : CosmicPass}
    → b.surface ≡ a.surface
    → b.model ≡ a.model
    → Agrees at a
    → Agrees at b
Agrees-of s m g = record {
  same = rw (s, m) g.same;
  settled = rw s g.settled;
  awaited = rw s g.awaited;
}

-- What was not hidden a moment ago is not so later on.
recently_hidden_later :
    (at later : ℕ) (s : Surface)
    → at ≤ later
    → recently_hidden at s ≡ false
    → recently_hidden later s ≡ false
unfolding recently_hidden
recently_hidden_later at later s h e = ground arith

pub Agrees-later : {at later : ℕ} {app : CosmicPass} → at ≤ later → Agrees at app → Agrees later app
Agrees-later {at} {later} {app} h g = record {
  same = g.same;
  settled = ground (arith, recently_hidden_later at later app.surface h);
  awaited = g.awaited;
}

show_surface-Agrees :
    (at : ℕ) (app : CosmicPass)
    → app.model.view.visible ≡ true
    → (app.surface.visible && recently_hidden at app.surface) ≡ false
    → (is_some app.surface.pending_show && not app.surface.visible) ≡ false
    → Agrees at (show_surface at app).0
unfolding show_surface recently_hidden
show_surface-Agrees at app v s a = ground arith

hide_surface-Agrees :
    (at : ℕ) (app : CosmicPass)
    → app.model.view.visible ≡ false
    → (is_some app.surface.pending_show && not app.surface.visible) ≡ false
    → Agrees at (run_effect at app Effect.hide_window).0
unfolding run_effect
hide_surface-Agrees at app v a = ground arith

-- An effect that tells the window nothing leaves the surface and the model as they are.
pub run_effect_quiet :
    (at : ℕ) (app : CosmicPass) (e : Effect)
    → window_asks (e ∷ []) ≡ []
    → ((run_effect at app e).0.surface ≡ app.surface) × ((run_effect at app e).0.model ≡ app.model)
unfolding run_effect
run_effect_quiet at app Effect.show_window h = cc
run_effect_quiet at app Effect.hide_window h = cc
run_effect_quiet at app _ h = ground arith

pub run_effects_quiet :
    (at : ℕ) (app : CosmicPass) (fx : List Effect)
    → window_asks fx ≡ []
    → ((run_effects at app fx).0.surface ≡ app.surface)
      × ((run_effects at app fx).0.model ≡ app.model)
unfolding run_effects
run_effects_quiet at app [] h = (refl, refl)
run_effects_quiet at app (Effect.show_window ∷ fx) h = absurd (cc)
run_effects_quiet at app (Effect.hide_window ∷ fx) h = absurd (cc)
run_effects_quiet at app (e ∷ fx) h =
    let one = run_effect_quiet at app e refl in
    let rest = run_effects_quiet at (run_effect at app e).0 fx h in (rest.0 ∙ one.0, rest.1 ∙ one.1)

-- An effect for the window is the only one, and says what the window is to be.
told_one :
    (up ask seen : Bool) (asks : List Bool)
    → told up (ask ∷ asks) ≡ some seen
    → (asks ≡ []) × (seen ≡ ask)
told_one up ask seen [] h = ground arith
told_one up ask seen (b ∷ bs) h = absurd (cc)

run_effects-Agrees :
    (at : ℕ) (app : CosmicPass) (fx : List Effect)
    → told app.surface.visible (window_asks fx) ≡ some app.model.view.visible
    → (app.surface.visible && recently_hidden at app.surface) ≡ false
    → (is_some app.surface.pending_show && not app.surface.visible) ≡ false
    → Agrees at (run_effects at app fx).0
unfolding run_effects
run_effects-Agrees at app [] h s a = record { same = ground arith; settled = s; awaited = a }
run_effects-Agrees at app (Effect.show_window ∷ fx) h s a =
    let one = told_one app.surface.visible true app.model.view.visible (window_asks fx) h in
    let after = (run_effect at app Effect.show_window).0 in
    let quiet = run_effects_quiet at after fx one.0 in
    Agrees-of quiet.0 quiet.1 (show_surface-Agrees at app one.1 s a)
run_effects-Agrees at app (Effect.hide_window ∷ fx) h s a =
    let one = told_one app.surface.visible false app.model.view.visible (window_asks fx) h in
    let after = (run_effect at app Effect.hide_window).0 in
    let quiet = run_effects_quiet at after fx one.0 in
    Agrees-of quiet.0 quiet.1 (hide_surface-Agrees at app one.1 a)
run_effects-Agrees at app (e ∷ fx) h s a =
    let one = run_effect_quiet at app e refl in
    run_effects-Agrees at (run_effect at app e).0 fx (rw (one.0, one.1) h) (rw one.0 s) (rw one.0 a)

pub log_latency_keeps :
    (app : CosmicPass) (s : Surface) (o : Option ℕ)
    → ((log_latency app (s, o)).surface ≡ s) × ((log_latency app (s, o)).model ≡ app.model)
log_latency_keeps app s none = (refl, refl)
log_latency_keeps app s (some t) = (refl, refl)

pub log_session_keeps :
    (app : CosmicPass)
    → ((log_session app).surface ≡ app.surface) × ((log_session app).model ≡ app.model)
unfolding log_session
log_session_keeps app = ground arith

pub requested_keeps :
    (at : ℕ) (msg : Msg) (app : CosmicPass)
    → ((requested at msg app).surface ≡ app.surface) × ((requested at msg app).model ≡ app.model)
requested_keeps at msg app = ground arith

-- What a message leaves for the effects to act on.
pub reduced_keeps :
    (u : Unicode) (mt : Matcher) (msg : Msg) (now : ℤ) (app : CosmicPass)
    → ((reduced u mt msg now app).0.surface ≡ app.surface)
      × ((reduced u mt msg now app).0.model ≡ (update u mt app.model msg now).0)
reduced_keeps u mt msg now app =
    log_session_keeps (record app { model = (update u mt app.model msg now).0 })

reduced-Tells :
    (u : Unicode) (mt : Matcher) (at : ℕ) (msg : Msg) (now : ℤ) (app : CosmicPass)
    → Agrees at app
    → (let (after, fx) = reduced u mt msg now app in
        told after.surface.visible (window_asks fx) ≡ some after.model.view.visible)
reduced-Tells u mt at msg now app g =
    let kept = reduced_keeps u mt msg now app in
    rw (kept.0, kept.1, g.same) (update-Tells u mt app.model msg now)

run_reduced-Agrees :
    (u : Unicode) (mt : Matcher) (at : ℕ) (msg : Msg) (now : ℤ) (app : CosmicPass)
    → Agrees at app
    → (let (after, fx) = reduced u mt msg now app in Agrees at (run_effects at after fx).0)
run_reduced-Agrees u mt at msg now app g =
    let (after, fx) = reduced u mt msg now app in
    let kept = reduced_keeps u mt msg now app in
    run_effects-Agrees at after fx (reduced-Tells u mt at msg now app g) (rw kept.0 g.settled)
      (rw kept.0 g.awaited)

pub dispatch-Agrees :
    (u : Unicode) (mt : Matcher) {at : ℕ} (now : ℤ) (msg : Msg) {app : CosmicPass}
    → Agrees at app
    → Agrees at (dispatch u mt at now msg app).0
unfolding dispatch
dispatch-Agrees u mt {at} now msg {app} g =
    let kept = requested_keeps at msg app in
    let base = requested at msg app in
    Agrees-of refl refl (run_reduced-Agrees u mt at msg now base (Agrees-of kept.0 kept.1 g))

-- A message that tells the window nothing leaves the surface, and the model that the reducer gives.
pub dispatch_quiet :
    (u : Unicode) (mt : Matcher) (at : ℕ) (now : ℤ) (msg : Msg) (app : CosmicPass)
    → window_asks (update u mt app.model msg now).1 ≡ []
    → ((dispatch u mt at now msg app).0.surface ≡ app.surface)
      × ((dispatch u mt at now msg app).0.model ≡ (update u mt app.model msg now).0)
unfolding dispatch
dispatch_quiet u mt at now msg app h =
    let base = requested at msg app in
    let kept = requested_keeps at msg app in
    let red = reduced_keeps u mt msg now base in
    let (after, fx) = reduced u mt msg now base in
    let quiet = run_effects_quiet at after fx (rw kept.1 h) in
    (quiet.0 ∙ red.0 ∙ kept.0, quiet.1 ∙ red.1 ∙ ap (λ m. (update u mt m msg now).0) kept.1)
