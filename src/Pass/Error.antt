-- ===== src/Pass/Error.antt =====
-- src/pass/error.rs: the errors of `pass-cli`, their texts, and the classification of its stderr.
use cosmic_pass.Base.{
  ℕ, String, Bool, true, false, Option, some, none, List, [], ◌∷◌, map, if◌then◌else◌, ◌==◌,
  string_discrete, or_else, unwrap_or, take, head, reverse, any,
}
use cosmic_pass.Base.Unicode.{Unicode}
use cosmic_pass.Base.Text.{
  codes, chars, from_chars, contains, strip_prefix, trim, split_at, nonempty,
}
use Prim.Native.Char.{Char}
use Prim.Native.String.{◌++◌}

pub data PassError : Type 0 where
  cli_missing signed_out locked network local_data timeout not_found field_missing cancelled :
      PassError
  protocol : (command : String) → PassError
  cli : (message : String) → PassError

unfoldable pub error_discrete : Discrete PassError
error_discrete = hlevel string_discrete

-- The `Display` texts.
unfoldable pub to_string : PassError → String
to_string cli_missing = "pass-cli is not installed"
to_string signed_out = "not signed in to Proton Pass"
to_string locked = "the Proton Pass session is locked"
to_string network = "network error while talking to Proton Pass"
to_string local_data =
    "pass-cli cannot open its local database; run `pass-cli logout --force` in a terminal, then sign in again"
to_string timeout = "pass-cli did not respond in time"
to_string not_found = "item or vault not found"
to_string field_missing = "this item has no such field"
to_string cancelled = "cancelled"
to_string (protocol command) = "unexpected output from pass-cli (" ++ command ++ ")"
to_string (cli message) = "pass-cli failed: " ++ message

-- A `Result` of the program over its errors.
pub data Result {ℓ} (A : Type ℓ) : Type ℓ where
  ok : A → Result A
  err : PassError → Result A

-- `io::ErrorKind`: whether the program was not found, else the kind's text.
pub data SpawnError : Type 0 where
  program_not_found : SpawnError
  other_kind : String → SpawnError

pub record Failure : Type 0 where
  pub spawn_error : Option SpawnError
  pub timed_out : Bool
  pub stderr : String

abbrev pub max_message_chars : ℕ
max_message_chars = 200

abbrev is_newline : ℕ → Bool
is_newline c = c == b'\n'

-- The trimmed lines that are not empty. Trimming takes a line's `\r` off as well.
unfoldable pub message_lines : String → List (List Char)
unfolding split_at trim
message_lines stderr = nonempty (map trim (split_at is_newline (chars stderr)))

-- The first line with the prefix `Error:`, without it.
unfoldable pub error_line : List (List Char) → Option (List Char)
unfolding strip_prefix trim
error_line [] = none
error_line (l ∷ ls) =
    let rest = error_line ls in
    elim (strip_prefix (codes "Error:") l) [ none ↦ rest | some after ↦ some (trim after) ]

unfoldable pub summary_line : String → String
unfolding message_lines error_line take
summary_line stderr =
    let lines = message_lines stderr in
    from_chars (
      take max_message_chars (
        unwrap_or (or_else (error_line lines) (head (reverse lines)))
          (chars "pass-cli exited with an error")))

abbrev pub signed_out_marks : List String
signed_out_marks =
    "requires an authenticated client" ∷ "there is no session" ∷ "forcing logout" ∷ []

abbrev pub local_data_marks : List String
local_data_marks =
    "file is not a database" ∷ "logout --force" ∷ "failed to initialize database" ∷ []

abbrev pub not_found_marks : List String
not_found_marks = "could not find" ∷ "error finding item" ∷ "idformat" ∷ []

abbrev pub network_marks : List String
network_marks = "connection" ∷ "timed out" ∷ "dns" ∷ "network" ∷ []

-- The ordered table over stderr.
unfoldable pub classify_text : Unicode → String → PassError
unfolding any
classify_text u stderr =
    let text = u.to_lowercase stderr in
    let has = λ (needles : List String). any (contains text) needles in
    if has signed_out_marks
    then signed_out
    else if has local_data_marks
    then local_data
    else if has ("field does not exist" ∷ [])
    then field_missing
    else if has ("locked" ∷ [])
    then locked
    else if has not_found_marks
    then not_found
    else if has network_marks
    then network
    else cli (summary_line stderr)

classify_ended : Unicode → Option SpawnError → Bool → String → PassError
classify_ended u (some program_not_found) late stderr = cli_missing
classify_ended u (some (other_kind kind)) late stderr = cli ("could not start pass-cli: " ++ kind)
classify_ended u none true stderr = timeout
classify_ended u none false stderr = classify_text u stderr

unfoldable pub classify : Unicode → Failure → PassError
unfolding classify_ended
classify u f = classify_ended u f.spawn_error f.timed_out f.stderr
