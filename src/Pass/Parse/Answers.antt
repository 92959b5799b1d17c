-- ===== src/Pass/Parse/Answers.antt =====
-- src/pass/parse.rs: the value that `item view` prints.
use cosmic_pass.Base.{
  ◌≡◌, refl, ◌∙◌, ap, String, Bool, false, some, List, [], ◌∷◌, ◌++◌, reverse, ◌==◌,
}
use cosmic_pass.Base.Text.{chars, from_chars, from_chars-chars}
use cosmic_pass.Pass.Error.{ok}
use cosmic_pass.Pass.Parse.Output.{Bytes, Answers, json, cut_newline, without_newline, parse_field}
use mathlib.Core.List.{reverse-append, reverse-reverse}
use Prim.Native.Char.{Char, code}
use Prim.Native.String.append
use Prim.Native.String.{◌++◌ as text_append}

chars-append : (s t : String) → chars (text_append s t) ≡ chars s ++ chars t
chars-append String.[] t = ap chars (append.nil t)
chars-append (String.◌∷◌ c s) t =
    ap chars (append.cons c s t) ∙ ap (λ cs. c ∷ cs) (chars-append s t)

abbrev starts_with_return : List Char → Bool
starts_with_return [] = false
starts_with_return (c ∷ cs) = code c == b'\r'

-- Whether a text ends with a carriage return.
abbrev pub ends_with_return : String → Bool
ends_with_return s = starts_with_return (reverse (chars s))

cut_newline-newline :
    (cs : List Char) → starts_with_return cs ≡ false → cut_newline ("\n" ∷ cs) ≡ cs
unfolding cut_newline
cut_newline-newline [] h = refl
cut_newline-newline (c ∷ cs) h = rw h refl

without_newline-newline :
    (value : String)
    → ends_with_return value ≡ false
    → without_newline (text_append value "\n") ≡ value
unfolding without_newline
without_newline-newline value h =
    ap (λ cs. from_chars (reverse (cut_newline (reverse cs)))) (chars-append value "\n")
    ∙ ap (λ cs. from_chars (reverse (cut_newline cs))) (reverse-append (chars value) ("\n" ∷ []))
    ∙ ap (λ cs. from_chars (reverse cs)) (cut_newline-newline (reverse (chars value)) h)
    ∙ ap from_chars (reverse-reverse (chars value))
    ∙ from_chars-chars value

-- A value that pass-cli prints in UTF-8 with a line feed after it is read back as it was, unless it
-- ends with a carriage return.
pub parse_field-newline :
    (a : Answers) (bytes : Bytes) (value : String)
    → a.from_utf8 bytes ≡ some (text_append value "\n")
    → ends_with_return value ≡ false
    → parse_field a bytes ≡ ok value
unfolding parse_field json
parse_field-newline a bytes value h k = rw h (ap ok (without_newline-newline value k))
