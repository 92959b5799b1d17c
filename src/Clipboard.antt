-- ===== src/Clipboard.antt =====
-- src/clipboard: the helper process that holds a selection, and the jobs of its owner.
mod Tests
pub mod Jobs
pub mod Watchdog
use cosmic_pass.Base.{
  ℕ, ◌+◌, ◌^◌, ◌-◌, String, Bool, true, false, Option, none, some, List, [], ◌∷◌, ◌++◌, map, max,
  min, if◌then◌else◌, ◌==◌,
}
use cosmic_pass.Base.Decimal.{show_decimal}
use cosmic_pass.Base.Text.{chars, from_chars, trim}
use Prim.Native.String.{◌++◌ as text_append}
use text.Mathlib.Text.{◌==◌ as str_eq}

pub data ClipboardError : Type 0 where
  unavailable : ClipboardError
  helper : String → ClipboardError

unfoldable pub error_text : ClipboardError → String
error_text unavailable = "the compositor does not offer clipboard access"
error_text (helper message) = text_append "clipboard helper failed: " message

pub data Copied : Type 0 where
  copied : Copied
  not_copied : ClipboardError → Copied

-- `helper_args`, with the delay in seconds.
unfoldable pub helper_args : Bool → ℕ → List String
unfolding show_decimal
helper_args secret clear_after =
    "--timeout" ∷ show_decimal (max clear_after 1) ∷ (if secret then "--secret" ∷ [] else [])

-- serve.rs. The exit codes are those of the operating system.
abbrev pub ready : String
ready = "ready"

abbrev pub exit_success : ℕ
exit_success = 0

abbrev pub exit_failure : ℕ
exit_failure = 1

abbrev pub exit_unavailable : ℕ
exit_unavailable = 2

abbrev pub exit_empty : ℕ
exit_empty = 3

abbrev pub password_hint_mime : String
password_hint_mime = "x-kde-passwordManagerHint"

-- The offered types, and which of them is the hint.
unfoldable pub offers : Bool → List (String × Bool)
offers secret =
    ("text/plain;charset=utf-8", false)
    ∷ ("text/plain", false)
    ∷ ("UTF8_STRING", false)
    ∷ (if secret then (password_hint_mime, true) ∷ [] else [])

abbrev pub Bytes : Type 0
Bytes = List ℕ

-- `read_value`, of an input that is read to its end.
abbrev pub read_value : Bytes → Option Bytes
read_value [] = none
read_value (b ∷ bs) = some (b ∷ bs)

abbrev pub watchdog_margin : ℕ
watchdog_margin = 1

abbrev pub u64_max : ℕ
u64_max = 2 ^ 64 - 1

-- Seconds after which a helper leaves of its own accord.
unfoldable pub watchdog_delay : ℕ → Bool → Option ℕ
watchdog_delay timeout secret =
    if secret then some (min (timeout + watchdog_margin) u64_max) else none

-- What the compositor says to the offer.
pub data Prepared : Type 0 where
  prepared missing_protocol refused : Prepared

-- The content of each offered type: the hint's is the word `secret`.
abbrev content : Bytes → String × Bool → String × Bytes
content value (mime, false) = (mime, value)
content value (mime, true) = (mime, b's' ∷ b'e' ∷ b'c' ∷ b'r' ∷ b'e' ∷ b't' ∷ [])

unfoldable pub sources : Bytes → Bool → List (String × Bytes)
unfolding offers
sources value secret = map (content value) (offers secret)

-- How serving ends: whether `ready` could be written, and whether serving went well.
abbrev served : Bool → Bool → ℕ
served false well = exit_failure
served true false = exit_failure
served true true = exit_success

abbrev offered : Prepared → Bool → Bool → ℕ
offered missing_protocol announced well = exit_unavailable
offered refused announced well = exit_failure
offered prepared announced well = served announced well

abbrev main_value : Option Bytes → Prepared → Bool → Bool → ℕ
main_value none p announced well = exit_empty
main_value (some value) p announced well = offered p announced well

-- `main`: its exit code, where no watchdog cuts in. `none` is an input that cannot be read.
unfoldable pub main : Option Bytes → Prepared → Bool → Bool → ℕ
main none p announced well = exit_failure
main (some input) p announced well = main_value (read_value input) p announced well

-- What the parent reads from its helper within the time: a line, or nothing.
abbrev is_ready : Option String → Bool
is_ready none = false
is_ready (some line) = str_eq (from_chars (trim (chars line))) ready

abbrev show_code : Option ℕ → String
show_code none = "None"
show_code (some code) = text_append "Some(" (text_append (show_decimal code) ")")

abbrev not_ready : Option ℕ → ClipboardError
not_ready code =
    helper (text_append "helper did not become ready (exit " (text_append (show_code code) ")"))

abbrev exit_error : Option ℕ → ClipboardError
exit_error none = not_ready none
exit_error (some code) = if code == exit_unavailable then unavailable else not_ready (some code)

-- `wait_ready`: the helper's line, and the exit code of a helper that is not ready.
unfoldable pub wait_ready : Option String → Option ℕ → Copied
unfolding trim show_decimal
wait_ready line code = if is_ready line then copied else not_copied (exit_error code)
