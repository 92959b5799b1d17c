-- ===== src/Totp.antt =====
-- src/core/totp.rs: the countdown of a one-time code.
mod Tests
pub mod Countdown
use cosmic_pass.Base.{ℕ, String, Bool, if◌then◌else◌, max, leb}
use cosmic_pass.Base.Int.{
  ℤ, pos, pos_part, ◌+ℤ◌, ◌*ℤ◌, leb_ℤ, max_ℤ, saturating_sub_i64, div_euclid, u32_max, wrap_i64,
}

-- The default period, in seconds.
abbrev pub default_period : ℕ
default_period = 30

pub record TotpDisplay : Type 0 where
  pub field : String
  pub code : String
  pub period : ℕ
  pub valid_until : ℤ

-- The next multiple of `period` strictly after `now`. The sum and the product wrap.
unfoldable pub valid_until : ℤ → ℕ → ℤ
unfolding div_euclid ◌+ℤ◌ ◌*ℤ◌ wrap_i64
valid_until now period =
    let p = max period 1 in wrap_i64 (wrap_i64 (div_euclid now p +ℤ pos 1) *ℤ pos p)

-- `TotpDisplay::new`.
unfoldable pub new_display : String → String → ℤ → TotpDisplay
new_display field code now = record {
  field = field;
  code = code;
  period = default_period;
  valid_until = valid_until now default_period;
}

-- Seconds left, from `period` down to 1, or 0 once the code has run out.
unfoldable pub remaining : TotpDisplay → ℤ → ℕ
unfolding saturating_sub_i64
remaining t now =
    let left = pos_part (max_ℤ (saturating_sub_i64 t.valid_until now) (pos 0)) in
    if leb left u32_max then left else t.period

unfoldable pub needs_refresh : TotpDisplay → ℤ → Bool
needs_refresh t now = leb_ℤ t.valid_until now
