-- ===== src/Cache/Settled.antt =====
-- src/cache/store.rs: no snapshot waits for ever, and the newest one is what the queue keeps.
use cosmic_pass.Base.{
  ◌≡◌, refl, ap, Option, none, some, List, [], ◌∷◌, ◌++◌, if◌then◌else◌, ◌&&◌, is_some, arith,
  or_else, head,
}
use cosmic_pass.Domain.Items.{CacheFile}
use cosmic_pass.Cache.Debounce.{
  Queue, new_queue, save_debounced, wake, delete_all, Request, save, delete, Step, Reached,
  CalmStep, CalmRun, taken,
}

-- A task sleeps exactly while one is scheduled, and one is while a snapshot is pending.
abbrev pub IsScheduled : Queue → Type 0
IsScheduled q =
    (q.timers ≡ (if q.scheduled then 1 else 0))
    × (is_some q.pending ≡ (is_some q.pending && q.scheduled))

Step-IsScheduled :
    {q q' : Queue} {r : Option Request} → IsScheduled q → Step q r q' → IsScheduled q'
unfolding save_debounced wake delete_all
Step-IsScheduled {q} h (Step.saved file) = ground arith
Step-IsScheduled {q} h Step.deleted = ground arith
Step-IsScheduled {q} h (Step.woken n e) = ground arith
Step-IsScheduled h (Step.finished before after file e) = h
Step-IsScheduled h (Step.dropped before after file e) = h

Reached-IsScheduled :
    (disk : Option CacheFile) {q : Queue} → Reached (new_queue disk) q → IsScheduled q
Reached-IsScheduled disk Reached.at_start = (refl, refl)
Reached-IsScheduled disk (Reached.next run step) =
    Step-IsScheduled (Reached-IsScheduled disk run) step

-- A pending snapshot that nothing replaces is written: whenever one is pending, its task is asleep, and
-- the task's waking and the end of its save bring that snapshot to the disk.
pub pending_is_written :
    (disk : Option CacheFile) (q : Queue) (file : CacheFile)
    → Reached (new_queue disk) q
    → q.pending ≡ some file
    → (awake written : Queue) × Step q none awake
      × Step awake none written
      × (written.disk ≡ some file)
unfolding wake
pending_is_written disk q file run p =
    let h = Reached-IsScheduled disk run in
    (
      wake q,
      record (wake q) { saving = q.saving ++ []; disk = some file },
      Step.woken 0 (ground (arith, h, p)),
      Step.finished q.saving [] file (ap (λ o. taken o q.saving) p),
      refl,
    )

-- What the requests leave: the snapshot of the latest save since the latest deletion.
unfoldable pub register : Option CacheFile → List Request → Option CacheFile
register start [] = start
register start (save file ∷ rs) = some file
register start (delete ∷ rs) = none

-- What the queue keeps: the pending snapshot, else the one being saved, else the one on disk.
unfoldable pub kept_file : Queue → Option CacheFile
kept_file q = or_else q.pending (or_else (head q.saving) q.disk)

or_else-none : (o : Option CacheFile) → or_else o none ≡ o
or_else-none none = refl
or_else-none (some f) = refl

CalmStep-register :
    (start : Option CacheFile) (rs : List Request) {q q' : Queue} {new : List Request}
    → kept_file q ≡ register start rs
    → CalmStep q new q'
    → kept_file q' ≡ register start (new ++ rs)
unfolding kept_file register save_debounced wake delete_all
CalmStep-register start rs {q} h (CalmStep.saved file) = ground arith
CalmStep-register start rs {q} h (CalmStep.deleted e) = rw e refl
CalmStep-register start rs {q} h (CalmStep.woken n t e) = ground arith
CalmStep-register start rs {q} h (CalmStep.finished file e) = ground arith

CalmRun-register :
    (start : Option CacheFile) {q : Queue} {rs : List Request}
    → CalmRun (new_queue start) rs q
    → kept_file q ≡ register start rs
unfolding kept_file register
CalmRun-register start CalmRun.at_start = refl
CalmRun-register start (CalmRun.next {rs} run step) =
    CalmStep-register start rs (CalmRun-register start run) step

-- The queue is a register: once nothing is pending or being saved, the file on disk is the snapshot of the
-- latest save since the latest deletion, in a run in which every save ends well, and before another
-- begins or the files are deleted.
pub disk-register :
    (start : Option CacheFile) (q : Queue) (rs : List Request)
    → CalmRun (new_queue start) rs q
    → q.pending ≡ none
    → q.saving ≡ []
    → q.disk ≡ register start rs
unfolding kept_file
disk-register start q rs run p s = rw (p, s) at (CalmRun-register start run)
