-- ===== src/Cache/Debounce.antt =====
-- src/cache/store.rs: `Debounce`, the queue in front of the cache file. A task sleeps for the delay, takes
-- what is pending and saves it. Its steps, those of the callers and the end of a save come in any order.
use cosmic_pass.Base.{
  ℕ, suc, ◌+◌, ◌-◌, ◌≡◌, Bool, true, false, Option, none, some, List, [], ◌∷◌, ◌++◌, if◌then◌else◌,
}
use cosmic_pass.Domain.Items.{CacheFile}

-- The queue, the tasks that sleep, the files whose save has begun, and the file that is on disk.
pub record Queue : Type 0 where
  pub pending : Option CacheFile
  pub scheduled : Bool
  pub timers : ℕ
  pub saving : List CacheFile
  pub disk : Option CacheFile

abbrev pub new_queue : Option CacheFile → Queue
new_queue disk = record { pending = none; scheduled = false; timers = 0; saving = []; disk = disk }

-- `save_debounced`.
unfoldable pub save_debounced : CacheFile → Queue → Queue
save_debounced file q =
    let waiting = record q { pending = some file } in
    if q.scheduled then waiting else record waiting { scheduled = true; timers = q.timers + 1 }

abbrev pub taken : Option CacheFile → List CacheFile → List CacheFile
taken none saving = saving
taken (some file) saving = saving ++ file ∷ []

-- The task after its sleep.
unfoldable pub wake : Queue → Queue
wake q = record q {
  scheduled = false;
  pending = none;
  timers = q.timers - 1;
  saving = taken q.pending q.saving;
}

-- `delete_all`.
unfoldable pub delete_all : Queue → Queue
delete_all q = record q { pending = none; disk = none }

-- What callers ask of the queue.
pub data Request : Type 0 where
  save : CacheFile → Request
  delete : Request

-- The steps, with the request that each serves.
pub data Step (q : Queue) : Option Request → Queue → Type 0 where
  saved : (file : CacheFile) → Step q (some (save file)) (save_debounced file q)
  deleted : Step q (some delete) (delete_all q)
  woken : (n : ℕ) → q.timers ≡ suc n → Step q none (wake q)
  finished :
      (before after : List CacheFile) (file : CacheFile)
      → q.saving ≡ before ++ file ∷ after
      → Step q none (record q { saving = before ++ after; disk = some file })
  dropped :
      (before after : List CacheFile) (file : CacheFile)
      → q.saving ≡ before ++ file ∷ after
      → Step q none (record q { saving = before ++ after })

-- The queues that steps lead to from a start.
pub data Reached (start : Queue) : Queue → Type 0 where
  at_start : Reached start start
  next : {q q' : Queue} {r : Option Request} → Reached start q → Step q r q' → Reached start q'

-- Steps in which a save ends well, and before another begins or the files are deleted.
pub data CalmStep (q : Queue) : List Request → Queue → Type 0 where
  saved : (file : CacheFile) → CalmStep q (save file ∷ []) (save_debounced file q)
  deleted : q.saving ≡ [] → CalmStep q (delete ∷ []) (delete_all q)
  woken : (n : ℕ) → q.timers ≡ suc n → q.saving ≡ [] → CalmStep q [] (wake q)
  finished :
      (file : CacheFile)
      → q.saving ≡ file ∷ []
      → CalmStep q [] (record q { saving = []; disk = some file })

-- A calm run, with its requests, the latest first.
pub data CalmRun (start : Queue) : List Request → Queue → Type 0 where
  at_start : CalmRun start [] start
  next :
      {q q' : Queue} {rs new : List Request}
      → CalmRun start rs q
      → CalmStep q new q'
      → CalmRun start (new ++ rs) q'
