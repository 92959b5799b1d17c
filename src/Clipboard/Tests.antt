-- ===== src/Clipboard/Tests.antt =====
-- src/clipboard: a secret that a newer copy replaces.
use cosmic_pass.Base.{◌≡◌, refl, true, false, none, some, List, [], ◌∷◌}
use cosmic_pass.Clipboard.{copied}
use cosmic_pass.Clipboard.Jobs.{
  Jobs, Happening, copy_begins, copy_ends, current_event, previous_event, cancelling, deadline, run,
  is_sound, run-is_sound, happen, install, copy_inner, retire, one_by_one, no_jobs, finish,
  finish_open, replaced,
}

abbrev two_copies : List Happening
two_copies =
    copy_begins
    ∷ copy_ends copied true
    ∷ copy_begins
    ∷ copy_ends copied false
    ∷ previous_event 0 cancelling
    ∷ current_event deadline
    ∷ []

abbrev after_two : Jobs
after_two = record {
  current = some (record { secret = false; cancelled = false; end = none });
  previous = record { secret = true; cancelled = true; end = some replaced } ∷ [];
}

two_copies_run : run no_jobs two_copies ≡ after_two
unfolding run happen install retire finish finish_open
two_copies_run = refl

run-is_sound_example : is_sound (run no_jobs two_copies) ≡ true
unfolding one_by_one
run-is_sound_example = run-is_sound two_copies refl

copies_in_turn :
    copy_inner copied false (copy_inner copied true no_jobs)
    ≡ run no_jobs (copy_begins ∷ copy_ends copied true ∷ copy_begins ∷ copy_ends copied false ∷ [])
unfolding copy_inner run happen
copies_in_turn = refl

-- Of two copies that overlap, the second begins before the first has a job to retire: when it ends it
-- overwrites that job, whose token nothing can cancel any more.
overlap_left :
    (run no_jobs
      (copy_begins ∷ copy_begins ∷ copy_ends copied true ∷ copy_ends copied false ∷ [])).previous
    ≡ record { secret = true; cancelled = false; end = none } ∷ []
unfolding run happen install retire
overlap_left = refl
