-- ===== src/Clipboard/Jobs.antt =====
-- src/clipboard/mod.rs: `HelperClipboard`. A job is a helper that holds a selection. The jobs are numbered
-- in the order in which they were made; a cancelled one is still to be killed.
use cosmic_pass.Base.{
  ℕ, zero, suc, ◌≡◌, refl, Bool, true, false, not, ◌&&◌, ◌||◌, Option, none, some, List, [], ◌∷◌,
  if◌then◌else◌, arith, is_some, all,
}
use cosmic_pass.Clipboard.{Copied, copied, not_copied}

pub data JobEnd : Type 0 where
  ownership_lost cleared replaced : JobEnd

pub record Job : Type 0 where
  pub secret : Bool
  pub cancelled : Bool
  pub end : Option JobEnd

-- The current job, and those that are not, or no longer.
pub record Jobs : Type 0 where
  pub current : Option Job
  pub previous : List Job

abbrev pub no_jobs : Jobs
no_jobs = record { current = none; previous = [] }

abbrev cancel : Job → Job
cancel j = record j { cancelled = true }

abbrev retired : Option Job → List Job → List Job
retired none js = js
retired (some j) js = cancel j ∷ js

-- `lock().take()` and its cancelling, with which a copy begins and the owner ends.
unfoldable pub retire : Jobs → Jobs
retire s = record { current = none; previous = retired s.current s.previous }

abbrev overwritten : Option Job → List Job → List Job
overwritten none js = js
overwritten (some j) js = j ∷ js

-- The end of a copy, given how the helper came up. A job that another copy has put there meanwhile is
-- overwritten, and not cancelled.
unfoldable pub install : Copied → Bool → Jobs → Jobs
install copied secret s = record {
  current = some (record { secret = secret; cancelled = false; end = none });
  previous = overwritten s.current s.previous;
}
install (not_copied e) secret s = s

-- `copy_inner`, if nothing happens while its helper comes up.
unfoldable pub copy_inner : Copied → Bool → Jobs → Jobs
unfolding retire install
copy_inner came_up secret s = install came_up secret (retire s)

-- What a job's task waits for: the end of its process, its deadline, which only a secret has, and its
-- cancelling.
pub data Event : Type 0 where
  process_ended deadline cancelling : Event

abbrev ended : JobEnd → Job → Job
ended e j = record j { end = some e }

unfoldable pub finish_open : Event → Job → Job
finish_open process_ended j = ended ownership_lost j
finish_open deadline j = if j.secret then ended cleared j else j
finish_open cancelling j = if j.cancelled then ended replaced j else j

-- The first event ends a job; those after it find no task.
unfoldable pub finish : Event → Job → Job
unfolding finish_open
finish event j = if is_some j.end then j else finish_open event j

abbrev finish_at : ℕ → Event → List Job → List Job
finish_at n event [] = []
finish_at zero event (j ∷ js) = finish event j ∷ js
finish_at (suc n) event (j ∷ js) = j ∷ finish_at n event js

abbrev finish_current : Event → Option Job → Option Job
finish_current event none = none
finish_current event (some j) = some (finish event j)

-- A copy begins, by retiring the current job, and ends later, since it waits for its helper.
pub data Happening : Type 0 where
  copy_begins : Happening
  copy_ends : Copied → Bool → Happening
  current_event : Event → Happening
  previous_event : ℕ → Event → Happening
  dropped : Happening

-- A happening, and a run of them.
unfoldable pub happen : Happening → Jobs → Jobs
unfolding install retire finish
happen copy_begins s = retire s
happen (copy_ends came_up secret) s = install came_up secret s
happen (current_event event) s = record s { current = finish_current event s.current }
happen (previous_event n event) s = record s { previous = finish_at n event s.previous }
happen dropped s = retire s

unfoldable pub run : Jobs → List Happening → Jobs
unfolding happen
run s [] = s
run s (h ∷ hs) = run (happen h s) hs

-- Whether copies come one after the other, given whether one is under way.
unfoldable pub one_by_one : Bool → List Happening → Bool
one_by_one copying [] = true
one_by_one copying (copy_begins ∷ hs) = not copying && one_by_one true hs
one_by_one copying (copy_ends came_up secret ∷ hs) = copying && one_by_one false hs
one_by_one copying (h ∷ hs) = one_by_one copying hs

-- A job that is not the current one is cancelled; one that holds no secret is not cleared; one that was
-- not cancelled is not replaced.
abbrev is_cleared : Option JobEnd → Bool
is_cleared (some cleared) = true
is_cleared _ = false

abbrev is_replaced : Option JobEnd → Bool
is_replaced (some replaced) = true
is_replaced _ = false

unfoldable sound : Job → Bool
sound j = (j.secret || not (is_cleared j.end)) && (j.cancelled || not (is_replaced j.end))

unfoldable past : Job → Bool
unfolding sound
past j = j.cancelled && sound j

abbrev sound_current : Option Job → Bool
sound_current none = true
sound_current (some j) = not j.cancelled && sound j

unfoldable pub is_sound : Jobs → Bool
unfolding sound past all
is_sound s = sound_current s.current && all past s.previous

finish_keeps :
    (event : Event) (j : Job)
    → ((finish event j).cancelled ≡ j.cancelled) × (sound j ≡ true → sound (finish event j) ≡ true)
unfolding finish finish_open sound
finish_keeps event j = ground arith

all-finish_at :
    (n : ℕ) (event : Event) (js : List Job)
    → all past js ≡ true
    → all past (finish_at n event js) ≡ true
unfolding all past
all-finish_at n event [] h = refl
all-finish_at zero event (j ∷ js) h = ground (arith, finish_keeps event j)
all-finish_at (suc n) event (j ∷ js) h = ground (arith, all-finish_at n event js)

current_keeps :
    (event : Event) (o : Option Job)
    → sound_current o ≡ true
    → sound_current (finish_current event o) ≡ true
unfolding sound
current_keeps event none h = refl
current_keeps event (some j) h = ground (arith, finish_keeps event j)

-- While a copy is under way no job is the current one.
abbrev IsApart : Bool → Jobs → Type 0
IsApart copying s = (is_sound s ≡ true) × ((copying && is_some s.current) ≡ false)

begins-IsApart : (s : Jobs) → IsApart false s → IsApart true (retire s)
unfolding is_sound retire all past sound
begins-IsApart s (k, l) = (ground arith, refl)

ends-IsApart :
    (came_up : Copied) (secret : Bool) (s : Jobs)
    → IsApart true s
    → IsApart false (install came_up secret s)
unfolding is_sound install all past sound
ends-IsApart came_up secret s (k, l) = (ground arith, refl)

current-IsApart :
    (copying : Bool) (event : Event) (s : Jobs)
    → IsApart copying s
    → IsApart copying (happen (current_event event) s)
unfolding is_sound happen
current-IsApart copying event s (k, l) =
    (ground (arith, current_keeps event s.current), ground arith)

previous-IsApart :
    (copying : Bool) (n : ℕ) (event : Event) (s : Jobs)
    → IsApart copying s
    → IsApart copying (happen (previous_event n event) s)
unfolding is_sound happen
previous-IsApart copying n event s (k, l) = (ground (arith, all-finish_at n event s.previous), l)

dropped-IsApart : (copying : Bool) (s : Jobs) → IsApart copying s → IsApart copying (retire s)
unfolding is_sound retire all past sound
dropped-IsApart copying s (k, l) = (ground arith, ground arith)

run_from-is_sound :
    (copying : Bool) (s : Jobs) (hs : List Happening)
    → IsApart copying s
    → one_by_one copying hs ≡ true
    → is_sound (run s hs) ≡ true
unfolding run happen one_by_one
run_from-is_sound copying s [] k o = k.0
run_from-is_sound false s (copy_begins ∷ hs) k o =
    run_from-is_sound true (retire s) hs (begins-IsApart s k) o
run_from-is_sound true s (copy_begins ∷ hs) k o = absurd (cc o)
run_from-is_sound true s (copy_ends came_up secret ∷ hs) k o =
    run_from-is_sound false (install came_up secret s) hs (ends-IsApart came_up secret s k) o
run_from-is_sound false s (copy_ends came_up secret ∷ hs) k o = absurd (cc o)
run_from-is_sound copying s (current_event event ∷ hs) k o =
    run_from-is_sound copying (happen (current_event event) s) hs
      (current-IsApart copying event s k) o
run_from-is_sound copying s (previous_event n event ∷ hs) k o =
    run_from-is_sound copying (happen (previous_event n event) s) hs
      (previous-IsApart copying n event s k) o
run_from-is_sound copying s (dropped ∷ hs) k o =
    run_from-is_sound copying (retire s) hs (dropped-IsApart copying s k) o

-- As long as no copy begins before the one before it has ended, and whatever else happens in between:
-- every job but the current one is cancelled and the current one is not, a job that holds no secret is
-- never cleared by its timer, and a job ends as replaced only if it was cancelled.
pub run-is_sound :
    (hs : List Happening) → one_by_one false hs ≡ true → is_sound (run no_jobs hs) ≡ true
unfolding is_sound all
run-is_sound hs o = run_from-is_sound false no_jobs hs (refl, refl) o
