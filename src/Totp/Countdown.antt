-- ===== src/Totp/Countdown.antt =====
-- src/core/totp.rs: how long a code is valid.
use cosmic_pass.Base.{ℕ, ◌+◌, ◌*◌, ◌/◌, ◌≤◌, ◌<◌, ◌≡◌, refl, max, arith, ◌==◌, zero, suc}
use cosmic_pass.Base.Int.{
  ℤ, pos, negsuc, pos_part, neg_part, ◌+ℤ◌, ◌-ℤ◌, ◌*ℤ◌, ◌≤ℤ◌, add_pos, mul_pos, div_euclid,
  saturating_sub_i64, clamp_i64, wrap_i64, wrap_i64_within, i64_min, i64_max,
}
use cosmic_pass.Totp.{TotpDisplay, valid_until, needs_refresh, remaining}
use native.Mathlib.Omega.{div_any, mod_fact}

quotient_below : (n k : ℕ) → n / k * k ≤ n
quotient_below n k = grind (arith, div_any n k)

quotient_above : (n k : ℕ) → suc n ≤ n / suc k * suc k + suc k
quotient_above n k = grind (arith, div_any n (suc k), mod_fact n k)

max-suc : (k : ℕ) → max (suc k) 1 ≡ suc k
max-suc k = omega arith

negsuc_suc : (a : ℕ) → (pos_part (negsuc a +ℤ pos 1) ≡ 0) × (neg_part (negsuc a +ℤ pos 1) ≡ a)
unfolding ◌+ℤ◌
negsuc_suc a = ground arith

mul_neg :
    (x : ℤ) (b : ℕ)
    → pos_part x ≡ 0
    → (pos_part (x *ℤ pos b) ≡ 0) × (neg_part (x *ℤ pos b) ≡ neg_part x * b)
unfolding ◌*ℤ◌
mul_neg x b h = rw h (grind arith)

quotient_small : (n k : ℕ) → n / suc k ≤ n
quotient_small n k = grind (arith, div_any n (suc k))

-- The next multiple, in numbers without a bound.
next_multiple : ℤ → ℕ → ℤ
next_multiple now k = (div_euclid now (suc k) +ℤ pos 1) *ℤ pos (suc k)

next_multiple-pos : (n k : ℕ) → next_multiple (pos n) k ≡ pos (n / suc k * suc k + suc k)
unfolding next_multiple div_euclid
next_multiple-pos n k = rw (add_pos, mul_pos) (grind arith)

next_multiple-negsuc :
    (n k : ℕ)
    → (pos_part (next_multiple (negsuc n) k) ≡ 0)
      × (neg_part (next_multiple (negsuc n) k) ≡ n / suc k * suc k)
unfolding next_multiple div_euclid
next_multiple-negsuc n k =
    let (a, b) = mul_neg (negsuc (n / suc k) +ℤ pos 1) (suc k) (negsuc_suc (n / suc k)).0 in
    (a, rw (negsuc_suc (n / suc k)).1 at b)

next_multiple_within :
    (now : ℤ) (k : ℕ)
    → (now +ℤ pos 1 ≤ℤ next_multiple now k) × (next_multiple now k ≤ℤ now +ℤ pos (suc k))
unfolding ◌+ℤ◌
next_multiple_within (pos n) k =
    rw (next_multiple-pos n k) (ground (arith, quotient_below n (suc k), quotient_above n k))
next_multiple_within (negsuc n) k =
    ground (arith, next_multiple-negsuc n k, quotient_below n (suc k), quotient_above n k)

-- The quotient and the next multiple fit, if a period after `now` does.
quotient_fits :
    (now : ℤ) (k : ℕ)
    → i64_min ≤ℤ now
    → now +ℤ pos (suc k) ≤ℤ i64_max
    → wrap_i64 (div_euclid now (suc k) +ℤ pos 1) ≡ div_euclid now (suc k) +ℤ pos 1
unfolding div_euclid ◌+ℤ◌
quotient_fits (pos n) k h t =
    wrap_i64_within _ (ground (arith, quotient_small n k)) (ground (arith, quotient_small n k))
quotient_fits (negsuc n) k h t =
    wrap_i64_within _ (ground (arith, quotient_small n k)) (ground (arith, quotient_small n k))

next_multiple_fits :
    (now : ℤ) (k : ℕ)
    → i64_min ≤ℤ now
    → now +ℤ pos (suc k) ≤ℤ i64_max
    → wrap_i64 (next_multiple now k) ≡ next_multiple now k
unfolding ◌+ℤ◌
next_multiple_fits now k h t =
    let (after, before) = next_multiple_within now k in
    wrap_i64_within (next_multiple now k) (ground (arith, after)) (ground (arith, before))

valid_until_wraps :
    (now : ℤ) (k : ℕ)
    → valid_until now (suc k) ≡ wrap_i64 (wrap_i64 (div_euclid now (suc k) +ℤ pos 1) *ℤ pos (suc k))
unfolding valid_until
valid_until_wraps now k = rw (max-suc k) refl

valid_until_lem :
    (now : ℤ) (k : ℕ)
    → i64_min ≤ℤ now
    → now +ℤ pos (suc k) ≤ℤ i64_max
    → valid_until now (suc k) ≡ next_multiple now k
unfolding next_multiple
valid_until_lem now k h t =
    rw (valid_until_wraps now k, quotient_fits now k h t) (next_multiple_fits now k h t)

valid_until_suc :
    (now : ℤ) (k : ℕ)
    → i64_min ≤ℤ now
    → now +ℤ pos (suc k) ≤ℤ i64_max
    → (now +ℤ pos 1 ≤ℤ valid_until now (suc k)) × (valid_until now (suc k) ≤ℤ now +ℤ pos (suc k))
valid_until_suc now k h t = rw (valid_until_lem now k h t) (next_multiple_within now k)

valid_until_of_zero :
    (now : ℤ)
    → i64_min ≤ℤ now
    → now +ℤ pos 1 ≤ℤ i64_max
    → (now +ℤ pos 1 ≤ℤ valid_until now 0) × (valid_until now 0 ≤ℤ now +ℤ pos (max 0 1))
unfolding valid_until
valid_until_of_zero now h t = valid_until_suc now 0 h t

-- At a time from which a period still fits an `i64`, the end of a code's period is after `now` and at
-- most a period later, where a period of 0 counts as 1, before the epoch too.
pub valid_until_within :
    (now : ℤ) (period : ℕ)
    → i64_min ≤ℤ now
    → now +ℤ pos (max period 1) ≤ℤ i64_max
    → (now +ℤ pos 1 ≤ℤ valid_until now period)
      × (valid_until now period ≤ℤ now +ℤ pos (max period 1))
valid_until_within now zero h t = valid_until_of_zero now h t
valid_until_within now (suc k) h t = rw (max-suc k) (valid_until_suc now k h (rw (max-suc k) at t))

-- A code asks for its replacement exactly when its countdown shows 0.
needs_refresh_at_zero :
    (t : TotpDisplay) (at : ℤ) → 0 < t.period → needs_refresh t at ≡ (remaining t at == 0)
unfolding needs_refresh remaining saturating_sub_i64 clamp_i64 ◌-ℤ◌
needs_refresh_at_zero t at h = ground arith
