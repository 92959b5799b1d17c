-- ===== src/Pass/Runner.antt =====
-- src/pass/runner.rs: a run of pass-cli, over what happens at each of its waits.
mod Tests
pub mod Gates
pub mod Bounded
pub mod Drained
use cosmic_pass.Base.{
  ℕ, String, Bool, true, false, ◌||◌, Option, none, some, List, [], ◌∷◌, ◌++◌, if◌then◌else◌,
}
use cosmic_pass.Base.Unicode.{Unicode}
use cosmic_pass.Pass.Error.{
  PassError, cancelled, timeout, cli, Result, ok, err, SpawnError, classify,
}
use cosmic_pass.Pass.Parse.Output.{Bytes}
use Prim.Native.String.{◌++◌ as text_append}

-- The wait for a permit, which a closed semaphore ends too, and the wait for the guard of the first run.
-- The flag that decides on the guard is read and set by other calls meanwhile: Gates has it.
pub data Permit : Type 0 where
  granted closed cancelled_before : Permit

pub data Warmup : Type 0 where
  passed cancelled_at_guard : Warmup

-- The start of the process, with the leader that `ProcessGroup::new` finds in the child's id.
pub data Spawn : Type 0 where
  spawned : (leader : Option ℕ) → Spawn
  not_spawned : SpawnError → Spawn

pub record Output : Type 0 where
  pub success : Bool
  pub stdout : Bytes
  pub stderr : String

-- What ends the wait for a process.
pub data Wait : Type 0 where
  timed_out cancelled_during : Wait
  wait_failed : String → Wait
  exited : Output → Wait

-- The guard that kills its process group when it is dropped, unless it is disarmed.
pub record ProcessGroup : Type 0 where
  pub leader : Option ℕ

abbrev pub disarm : ProcessGroup → ProcessGroup
disarm g = record g { leader = none }

-- The leaders of the groups that dropping the guard kills.
abbrev leaders : Option ℕ → List ℕ
leaders none = []
leaders (some p) = p ∷ []

unfoldable pub drop_group : ProcessGroup → List ℕ
drop_group g = leaders g.leader

-- What a run leaves: its result, and the process groups that it killed.
pub record Ran (A : Type 0) : Type 0 where
  pub result : Result A
  pub killed : List ℕ

abbrev pub unstarted : {A : Type 0} → PassError → Ran A
unstarted e = record { result = err e; killed = [] }

unfoldable pub classify_spawn : Unicode → SpawnError → PassError
unfolding classify
classify_spawn u kind =
    classify u (record { spawn_error = some kind; timed_out = false; stderr = "" })

unfoldable pub exit_error : Unicode → String → PassError
unfolding classify
exit_error u stderr = classify u (record { spawn_error = none; timed_out = false; stderr = stderr })

-- The `select!`: the output of a process that ended, or why the run returns before it did.
unfoldable pub waited : Wait → Result Output
waited timed_out = err timeout
waited cancelled_during = err cancelled
waited (wait_failed message) = err (cli message)
waited (exited output) = ok output

-- The result of a process that ended.
unfoldable pub output_of : Unicode → Output → Result Bytes
unfolding exit_error
output_of u o = if o.success then ok o.stdout else err (exit_error u o.stderr)

-- An early return drops the guard as it is; after the wait it is disarmed first.
unfoldable pub returned : {A B : Type 0} → ProcessGroup → Result A → (A → Result B) → Ran B
unfolding drop_group
returned group (err e) result_of = record { result = err e; killed = drop_group group }
returned group (ok output) result_of = record {
  result = result_of output;
  killed = drop_group (disarm group);
}

unfoldable pub started : Unicode → Spawn → Wait → Ran Bytes
unfolding classify_spawn waited output_of returned
started u (not_spawned kind) wait = unstarted (classify_spawn u kind)
started u (spawned leader) wait = returned (record { leader = leader }) (waited wait) (output_of u)

unfoldable pub warmed_up : Unicode → Warmup → Spawn → Wait → Ran Bytes
unfolding started
warmed_up u passed spawn wait = started u spawn wait
warmed_up u cancelled_at_guard spawn wait = unstarted cancelled

-- `run_inner`.
unfoldable pub run_inner : Unicode → Permit → Warmup → Spawn → Wait → Ran Bytes
unfolding warmed_up
run_inner u granted warmup spawn wait = warmed_up u warmup spawn wait
run_inner u closed warmup spawn wait = unstarted cancelled
run_inner u cancelled_before warmup spawn wait = unstarted cancelled

-- A line of a process that is listened to.
pub data Line : Type 0 where
  out_line error_line : String → Line

-- The lines that are sent on, and the text of the error output.
abbrev pub sent : List Line → List String
sent [] = []
sent (out_line l ∷ ls) = l ∷ sent ls
sent (error_line l ∷ ls) = l ∷ sent ls

abbrev pub error_text : List Line → String
error_text [] = ""
error_text (out_line l ∷ ls) = error_text ls
error_text (error_line l ∷ ls) = text_append l (text_append "\n" (error_text ls))

-- What ends the listening: the process has no output pipes, the time is over, or it has ended.
pub data Listened : Type 0 where
  no_pipes too_late : Listened
  not_waited : String → Listened
  ended : (success : Bool) → Listened

unfoldable pub listened : List Line → Listened → Result (Bool × String)
listened lines no_pipes = err (cli "no output pipes")
listened lines too_late = err timeout
listened lines (not_waited message) = err (cli message)
listened lines (ended success) = ok (success, error_text lines)

abbrev heard : Listened → List Line → List String
heard no_pipes lines = []
heard end lines = sent lines

unfoldable pub streamed : Unicode → Bool × String → Result (Unit {0})
unfolding exit_error
streamed u (true, text) = ok tt
streamed u (false, text) = err (exit_error u text)

-- `run_streaming_inner`: the lines that were sent, and how it ended.
unfoldable pub run_streaming_inner :
    Unicode → Spawn → List Line → Listened → List String × Ran (Unit {0})
unfolding classify_spawn listened streamed returned
run_streaming_inner u (not_spawned kind) lines end = ([], unstarted (classify_spawn u kind))
run_streaming_inner u (spawned leader) lines end =
    (heard end lines, returned (record { leader = leader }) (listened lines end) (streamed u))
