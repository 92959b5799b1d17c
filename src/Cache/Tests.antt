-- ===== src/Cache/Tests.antt =====
-- src/cache: a file sealed and opened, saved and loaded, and a deletion that a save outlives.
use cosmic_pass.Base.{
  inl, inr, List, ◌≡◌, refl, sym, Bool, true, false, Option, none, some, [], ◌∷◌, ◌++◌, length,
  take,
}
use cosmic_pass.Base.Int.{pos}
use cosmic_pass.Base.Text.{same_codes}
use cosmic_pass.Domain.Items.{CacheFile, cache_format_version}
use cosmic_pass.Cache.{Tried, done}
use cosmic_pass.Cache.Crypto.{Bytes, Cipher, seal, open_file, header, skip}
use cosmic_pass.Cache.Envelope.{open_file-seal, seal-open_file}
use cosmic_pass.Cache.KeyStore.{Memory, memory_key, memory_store}
use cosmic_pass.Cache.Store.{
  Faults, written, Codec, World, load, save, save_with, save_sealed, write_atomic,
}
use cosmic_pass.Cache.Loaded.{load-save}
use cosmic_pass.Cache.Kept.{loads, load-loads}
use cosmic_pass.Cache.Debounce.{
  Queue, new_queue, save_debounced, wake, delete_all, save as save_request, Reached, Step, CalmRun,
  CalmStep,
}
use cosmic_pass.Cache.Settled.{pending_is_written, register, disk-register}

-- A cipher that changes nothing.
abbrev plain_cipher : Cipher
plain_cipher = record {
  encrypt = λ key nonce head plain. some plain;
  decrypt = λ key nonce head body. some body;
}

abbrev nonce : Bytes
nonce =
    0 ∷ 1 ∷ 2 ∷ 3 ∷ 4 ∷ 5 ∷ 6 ∷ 7 ∷ 8 ∷ 9 ∷ 10 ∷ 11 ∷ 12 ∷ 13 ∷ 14 ∷ 15 ∷ 16 ∷ 17 ∷ 18 ∷ 19 ∷ 20
    ∷ 21 ∷ 22 ∷ 23 ∷ []

abbrev sealed : Bytes
sealed =
    67 ∷ 80 ∷ 67 ∷ 49 ∷ 1 ∷ 0 ∷ 0 ∷ 1 ∷ 2 ∷ 3 ∷ 4 ∷ 5 ∷ 6 ∷ 7 ∷ 8 ∷ 9 ∷ 10 ∷ 11 ∷ 12 ∷ 13 ∷ 14 ∷ 15
    ∷ 16 ∷ 17 ∷ 18 ∷ 19 ∷ 20 ∷ 21 ∷ 22 ∷ 23 ∷ 42 ∷ []

open_file-seal_example : open_file plain_cipher (7 ∷ []) sealed ≡ done (42 ∷ [])
unfolding seal
open_file-seal_example =
    open_file-seal plain_cipher (λ k n h p b e. sym e) (7 ∷ []) nonce (42 ∷ []) sealed refl refl

seal-open_file_example :
    (n : Bytes) × (length n ≡ 24) × (seal plain_cipher (7 ∷ []) n (42 ∷ []) ≡ done sealed)
unfolding open_file take skip same_codes
seal-open_file_example =
    seal-open_file plain_cipher (λ k n h p b e. sym e) (7 ∷ []) sealed (42 ∷ []) refl

abbrev file : CacheFile
file = record {
  format_version = cache_format_version;
  account = "a";
  fetched_at = pos 5;
  vaults = [];
  items = [];
  usage = [];
}

-- An encoding of that one file, for the tests.
abbrev read_file : Bytes → Option CacheFile
read_file [] = none
read_file (b ∷ bs) = some file

abbrev codec : Codec
codec = record { to_bytes = λ f. done (1 ∷ []); from_bytes = read_file }

abbrev memory : Option Bytes → Bool → Memory
memory slot is_unavailable = record { slot = slot; is_unavailable = is_unavailable }

abbrev world : Option Bytes → Memory → World Memory
world disk keys = record { disk = disk; keys = keys; writes = 0 }

abbrev no_faults : Faults
no_faults = record { read_fails = false; remove_fails = false; write = written }

abbrev one_saved : World Memory
one_saved = record {
  disk = some (header nonce ++ 1 ∷ []);
  keys = memory (some (7 ∷ [])) false;
  writes = 1;
}

reread :
    (plain : Bytes)
    → ◌≡◌ {A = Tried Bytes} (done (1 ∷ [])) (done plain)
    → read_file plain ≡ some file
reread [] h = absurd (cc h)
reread (b ∷ bs) h = refl

-- The first save makes the key.
load-save_example :
    load (memory_store (7 ∷ [])) plain_cipher codec no_faults one_saved ≡ (some file, one_saved)
unfolding save save_with save_sealed write_atomic seal memory_store memory_key
load-save_example =
    load-save (memory_store (7 ∷ [])) plain_cipher codec (λ k n h p b e. sym e) no_faults nonce file
      (world none (memory none false)) one_saved (7 ∷ []) (memory (some (7 ∷ [])) false) refl refl
      refl refl (λ plain e. reread plain e) refl refl refl

-- While the keyring is locked the file is asked for, and once more when reading it fails.
abbrev cut_off : List (Faults × Memory)
cut_off =
    (no_faults, memory none true) ∷ (record no_faults { read_fails = true }, memory none false) ∷ []

load-loads_example :
    load
      (memory_store (7 ∷ []))
      plain_cipher
      codec
      no_faults
      (record (loads (memory_store (7 ∷ [])) plain_cipher codec cut_off one_saved) {
        keys = memory (some (7 ∷ [])) false;
      })
    ≡ load
        (memory_store (7 ∷ []))
        plain_cipher
        codec
        no_faults
        (record one_saved { keys = memory (some (7 ∷ [])) false })
unfolding memory_store memory_key
load-loads_example =
    load-loads (memory_store (7 ∷ [])) plain_cipher codec cut_off one_saved no_faults
      (memory (some (7 ∷ [])) false) (inr refl, (inl refl, tt))

abbrev waiting : Queue
waiting = record { pending = some file; scheduled = true; timers = 1; saving = []; disk = none }

waiting_reached : Reached (new_queue none) waiting
unfolding save_debounced
waiting_reached = Reached.next Reached.at_start (Step.saved file)

pending_is_written_example :
    (awake written : Queue) × Step waiting none awake
    × Step awake none written
    × (written.disk ≡ some file)
pending_is_written_example = pending_is_written none waiting file waiting_reached refl

abbrev settled : Queue
settled = record { pending = none; scheduled = false; timers = 0; saving = []; disk = some file }

settled_run : CalmRun (new_queue none) (save_request file ∷ []) settled
unfolding save_debounced wake
settled_run =
    CalmRun.next
      (CalmRun.next (CalmRun.next CalmRun.at_start (CalmStep.saved file))
        (CalmStep.woken 0 refl refl))
      (CalmStep.finished file refl)

disk-register_example : settled.disk ≡ register none (save_request file ∷ [])
disk-register_example = disk-register none settled (save_request file ∷ []) settled_run refl refl

-- A save that has begun outlives a deletion, and puts the deleted file back.
deletion_outlived : Reached (new_queue none) settled
unfolding save_debounced wake delete_all
deletion_outlived =
    Reached.next
      (Reached.next
        (Reached.next (Reached.next Reached.at_start (Step.saved file)) (Step.woken 0 refl))
        Step.deleted)
      (Step.finished [] [] file refl)
