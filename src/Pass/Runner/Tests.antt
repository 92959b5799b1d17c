-- ===== src/Pass/Runner/Tests.antt =====
-- src/pass/runner.rs: a run that is too late, and two calls on a new profile.
use cosmic_pass.Base.{true, some, [], ◌∷◌, ℕ, ◌≤◌, refl, if◌then◌else◌, ◌≡◌, false}
use cosmic_pass.Fixtures.{plain_case}
use cosmic_pass.Pass.Runner.{
  granted, passed, spawned, timed_out, exited, Output, drop_group, run_inner,
}
use cosmic_pass.Pass.Runner.Gates.{
  Gates, called, admitted, locked, at_work, take, Reached, made, then_taken, max_concurrent,
}
use cosmic_pass.Pass.Runner.Bounded.{processes, processes_bounded}
use cosmic_pass.Pass.Runner.Drained.{Moves, load, calls_drain}

abbrev done : Output
done = record { success = true; stdout = []; stderr = "" }

-- The group of a process that takes too long is killed, and that of one that exits is not.
late_is_killed : (run_inner plain_case granted passed (spawned (some 7)) timed_out).killed ≡ 7 ∷ []
unfolding run_inner drop_group
late_is_killed = refl

ended_is_spared : (run_inner plain_case granted passed (spawned (some 7)) (exited done)).killed ≡ []
unfolding run_inner drop_group
ended_is_spared = refl

-- Two calls are let in, and the first of them holds the guard.
abbrev one_works : Gates
one_works = record {
  permits = 2;
  warm = false;
  guard = at_work;
  unadmitted = 0;
  unguarded = 1;
  at_large = 0;
  streaming = 0;
}

one_works_reached : Reached one_works
unfolding take
one_works_reached =
    then_taken locked
      (then_taken admitted
        (then_taken admitted (then_taken called (then_taken called made refl) refl) refl) refl)
      refl

processes_bounded_example : processes one_works ≤ (if one_works.warm then max_concurrent else 1)
processes_bounded_example = processes_bounded one_works one_works_reached

calls_drain_example :
    (n : ℕ) × (h : Gates) × Moves one_works n h × (n ≤ load one_works) × (load h ≡ 0)
calls_drain_example = calls_drain one_works one_works_reached
