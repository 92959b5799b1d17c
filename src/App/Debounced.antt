-- ===== src/App/Debounced.antt =====
-- src/app/mod.rs, src/app/surface.rs: a window that was hidden a moment ago.
use cosmic_pass.Base.{ℕ, ◌-◌, ◌<◌, ◌≡◌, false, some, List, [], ◌∷◌}
use cosmic_pass.Base.Int.{ℤ}
use cosmic_pass.Base.Unicode.{Unicode}
use cosmic_pass.App.Popup.{toggle_debounce}
use cosmic_pass.App.{CosmicPass}
use cosmic_pass.App.Events.{Arrival}

-- Closed, at an instant within the debounce after a hiding.
record IsShut (at t : ℕ) (app : CosmicPass) : Type 0 where
  closed : app.surface.visible ≡ false
  hidden : app.surface.last_hide ≡ some t
  recent : at - t < toggle_debounce

-- Every instant is within the debounce after `t`.
abbrev pub Soon : ℕ → List (Arrival × ℕ × ℤ) → Type 0
Soon t [] = Unit
Soon t ((a, at, now) ∷ rest) = (at - t < toggle_debounce) × Soon t rest

-- If closed, then by a hiding at an instant.
abbrev ShutAt : ℕ → CosmicPass → Type 0
ShutAt t app = app.surface.visible ≡ false → app.surface.last_hide ≡ some t
