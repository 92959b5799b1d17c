-- ===== src/Pass/Runner/Gates.antt =====
-- src/pass/runner.rs: which runs of pass-cli may go on at once. The calls that stand at one wait are
-- alike, so they are counted.
use cosmic_pass.Base.{ℕ, zero, suc, ◌≡◌, Bool, true, false, ◌||◌, Option, none, some}

abbrev pub max_concurrent : ℕ
max_concurrent = 4

-- What the call that holds the guard of the warm-up does.
pub data Holder : Type 0 where
  nobody at_work returning : Holder

-- The permits that are left, whether a process has come back, who holds the guard, and the calls:
-- those that wait for a permit, those that have one and wait for the guard, those whose process runs
-- without the guard, and the streaming ones.
pub record Gates : Type 0 where
  pub permits : ℕ
  pub warm : Bool
  pub guard : Holder
  pub unadmitted : ℕ
  pub unguarded : ℕ
  pub at_large : ℕ
  pub streaming : ℕ

-- `TokioRunner::new`.
abbrev pub new_gates : Gates
new_gates = record {
  permits = max_concurrent;
  warm = false;
  guard = nobody;
  unadmitted = 0;
  unguarded = 0;
  at_large = 0;
  streaming = 0;
}

-- What may happen next: a call is made; it is granted a permit, or the lock of the guard; it is
-- cancelled at either wait; its process ends, whether it came back or was given up.
pub data Event : Type 0 where
  called admitted locked cancelled_unadmitted cancelled_unguarded : Event
  guarded_ended at_large_ended streaming_ended : (came_back : Bool) → Event
  guard_dropped stream_called : Event

-- A call with a permit: `warmup_guard` looks first whether a process has come back.
abbrev pub enter : Bool → Gates → Gates
enter true g = record g { at_large = suc g.at_large }
enter false g = record g { unguarded = suc g.unguarded }

abbrev admit : ℕ → ℕ → Gates → Option Gates
admit (suc permits) (suc unadmitted) g =
    some (enter g.warm (record g { permits = permits; unadmitted = unadmitted }))
admit _ _ g = none

-- With the lock it looks again, and lets go of the lock if another process came back meanwhile.
abbrev pub hold : Bool → Gates → Gates
hold true g = record g { at_large = suc g.at_large }
hold false g = record g { guard = at_work }

abbrev lock : Holder → ℕ → Gates → Option Gates
lock nobody (suc unguarded) g = some (hold g.warm (record g { unguarded = unguarded }))
lock _ _ g = none

abbrev cancel_unadmitted : ℕ → Gates → Option Gates
cancel_unadmitted zero g = none
cancel_unadmitted (suc n) g = some (record g { unadmitted = n })

abbrev cancel_unguarded : ℕ → Gates → Option Gates
cancel_unguarded zero g = none
cancel_unguarded (suc n) g = some (record g { unguarded = n; permits = suc g.permits })

-- `mark_warm` comes before the guard and the permit are dropped.
abbrev end_guarded : Holder → Bool → Gates → Option Gates
end_guarded at_work came_back g = some (record g { guard = returning; warm = g.warm || came_back })
end_guarded _ came_back g = none

abbrev drop_guard : Holder → Gates → Option Gates
drop_guard returning g = some (record g { guard = nobody; permits = suc g.permits })
drop_guard _ g = none

abbrev end_at_large : ℕ → Bool → Gates → Option Gates
end_at_large zero came_back g = none
end_at_large (suc n) came_back g =
    some (record g { at_large = n; permits = suc g.permits; warm = g.warm || came_back })

-- Signing in takes no permit and no guard.
abbrev end_streaming : ℕ → Bool → Gates → Option Gates
end_streaming zero came_back g = none
end_streaming (suc n) came_back g = some (record g { streaming = n; warm = g.warm || came_back })

-- One event, and none where it cannot happen.
unfoldable pub take : Event → Gates → Option Gates
take called g = some (record g { unadmitted = suc g.unadmitted })
take admitted g = admit g.permits g.unadmitted g
take locked g = lock g.guard g.unguarded g
take cancelled_unadmitted g = cancel_unadmitted g.unadmitted g
take cancelled_unguarded g = cancel_unguarded g.unguarded g
take (guarded_ended came_back) g = end_guarded g.guard came_back g
take guard_dropped g = drop_guard g.guard g
take (at_large_ended came_back) g = end_at_large g.at_large came_back g
take stream_called g = some (record g { streaming = suc g.streaming })
take (streaming_ended came_back) g = end_streaming g.streaming came_back g

-- What can be reached from a runner that has just been made.
pub data Reached : Gates → Type 0 where
  made : Reached new_gates
  then_taken : {g h : Gates} (e : Event) → Reached g → take e g ≡ some h → Reached h
