-- ===== src/State/Invariant/Sound.antt =====
-- src/core/state.rs: the invariants of the reducer together.
use cosmic_pass.Base.{[]}
use cosmic_pass.Base.Int.{ℤ}
use cosmic_pass.Base.Unicode.{Unicode}
use cosmic_pass.Config.Types.{Preferences}
use cosmic_pass.Search.Index.{Matcher}
use cosmic_pass.State.Types.{Model, Msg, new_model}
use cosmic_pass.State.Update as State
use cosmic_pass.State.Update.{update}
use cosmic_pass.State.Invariant.Reveal.Parts.{IsMasked}
use cosmic_pass.State.Invariant.Reveal.Kept.{update-IsMasked}
use cosmic_pass.State.Invariant.Rows.Parts.{IsIndexed}
use cosmic_pass.State.Invariant.Rows.Kept.{update-IsIndexed}
use cosmic_pass.State.Invariant.Accounts.Basics.{IsAccounted}
use cosmic_pass.State.Invariant.Accounts.Kept.{update-IsAccounted, run-IsAccounted}
use cosmic_pass.State.Invariant.Runs.{run-IsIndexed, run-IsMasked}

-- The three invariants of the reducer.
pub record IsSound (m : Model) : Type 0 where
  pub masked : IsMasked m
  pub indexed : IsIndexed m
  pub accounted : IsAccounted m

pub new_model-IsSound :
    (u : Unicode) (mt : Matcher) (prefs : Preferences) → IsSound (new_model prefs)
unfolding State.run
new_model-IsSound u mt prefs = record {
  masked = run-IsMasked u mt prefs [];
  indexed = run-IsIndexed u mt prefs [];
  accounted = run-IsAccounted u mt prefs [];
}

pub update-IsSound :
    (u : Unicode) (mt : Matcher) (m : Model) (msg : Msg) (now : ℤ)
    → IsSound m
    → IsSound (update u mt m msg now).0
update-IsSound u mt m msg now v = record {
  masked = update-IsMasked u mt m msg now v.masked;
  indexed = update-IsIndexed u mt m msg now v.indexed;
  accounted = update-IsAccounted u mt m msg now v.accounted;
}
