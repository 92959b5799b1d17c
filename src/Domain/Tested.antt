-- ===== src/Domain/Tested.antt =====
-- src/core/version.rs: which versions are warned about.
use cosmic_pass.Base.{
  ◌≡◌, Bool, not, ◌||◌, ◌&&◌, ◌==◌, ltb, leb, is_some, arith, is_lt, true, false, refl, ◌∙◌, String,
  some, none, if◌then◌else◌,
}
use cosmic_pass.Domain.Version.{CliVersion, compare_version, tested_min, show_version, warning}
use Prim.Native.String.{◌++◌}

-- At least 2.3.0, part by part.
abbrev pub is_tested : CliVersion → Bool
is_tested v = ltb 2 v.major || (v.major == 2 && leb 3 v.minor)

is_some-if : (b : Bool) (t : String) → is_some (if b then some t else none) ≡ b
is_some-if true t = refl
is_some-if false t = refl

below_tested_min : (v : CliVersion) → is_lt (compare_version v tested_min) ≡ not (is_tested v)
unfolding compare_version
below_tested_min v = ground arith

-- A version is warned about exactly when it is below 2.3.0: its major part is below 2, or is 2 and its
-- minor part is below 3.
warning_below : (v : CliVersion) → is_some (warning v) ≡ not (is_tested v)
unfolding warning
warning_below v =
    is_some-if (is_lt (compare_version v tested_min)) (
      "pass-cli "
      ++ show_version v
      ++ " is older than the tested "
      ++ show_version tested_min
      ++ "; some fields may not copy. Upgrade pass-cli.")
    ∙ below_tested_min v
