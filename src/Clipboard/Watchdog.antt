-- ===== src/Clipboard/Watchdog.antt =====
-- src/clipboard/serve.rs: the watchdog and the parent's timer.
use cosmic_pass.Base.{ℕ, ◌+◌, ◌≤◌, ◌<◌, ◌≡◌, refl, true, false, some, none, max, min, arith}
use cosmic_pass.Clipboard.{watchdog_delay, u64_max}

-- The watchdog of a helper that holds a secret fires after its parent's timer, and within a second of
-- it for a delay of at least a second; one that holds no secret has no watchdog.
watchdog_delay_lem :
    (clear_after : ℕ)
    → clear_after < u64_max
    → ((delay : ℕ) × (watchdog_delay (max clear_after 1) true ≡ some delay)
        × (clear_after < delay)
        × (delay ≤ max clear_after 1 + 1))
      × (watchdog_delay (max clear_after 1) false ≡ none)
unfolding watchdog_delay
watchdog_delay_lem clear_after h =
    ((min (max clear_after 1 + 1) u64_max, refl, omega arith, omega arith), refl)
