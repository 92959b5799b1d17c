-- ===== src/Totp/Tests.antt =====
-- The countdown at sample times.
use cosmic_pass.Base.{◌≡◌, refl, max, arith, ◌^◌, ◌-◌}
use cosmic_pass.Base.Int.{pos, negsuc, ◌+ℤ◌, ◌≤ℤ◌}
use cosmic_pass.Totp.{TotpDisplay, valid_until, remaining}
use cosmic_pass.Totp.Countdown.{valid_until_within}

before_the_epoch : valid_until (negsuc 0) 30 ≡ pos 0
unfolding valid_until
before_the_epoch = refl

valid_until_within_example :
    (negsuc 44 +ℤ pos 1 ≤ℤ valid_until (negsuc 44) 30)
    × (valid_until (negsuc 44) 30 ≤ℤ negsuc 44 +ℤ pos (max 30 1))
unfolding ◌+ℤ◌
valid_until_within_example = valid_until_within (negsuc 44) 30 (omega arith) (omega arith)

-- At the end of the range the sum wraps, and the code counts as run out.
wraps : valid_until (pos (2 ^ 63 - 1)) 1 ≡ negsuc (2 ^ 63 - 1)
unfolding valid_until
wraps = refl

abbrev shown : TotpDisplay
shown = record { field = "totp_uri"; code = "123456"; period = 30; valid_until = pos 60 }

runs_out : remaining shown (pos 60) ≡ 0
unfolding remaining
runs_out = refl
