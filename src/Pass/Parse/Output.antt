-- ===== src/Pass/Parse/Output.antt =====
-- src/pass/parse.rs: the commands' answers.
use cosmic_pass.Base.{
  ℕ, String, Bool, not, Option, none, some, List, [], ◌∷◌, map, reverse, keep, any, or_else,
  unwrap_or, if◌then◌else◌, ◌==◌,
}
use cosmic_pass.Base.Int.{pos}
use cosmic_pass.Base.Text.{chars, from_chars, eq_ignore_ascii_case, split_whitespace}
use cosmic_pass.Domain.Items.{ShareId, AccountId, Vault, FieldRef, ItemKind, ItemSummary, from_cli}
use cosmic_pass.Domain.Timestamp.{parse_timestamp}
use cosmic_pass.Domain.Version.{CliVersion, from_str}
use cosmic_pass.Pass.Error.{protocol, Result, ok, err}
use cosmic_pass.Pass.Parse.Raw.{RawContent, RawItem}
use cosmic_pass.Pass.Parse.Fill.{fill}
use Prim.Native.Char.{Char, code}
use text.Mathlib.Text.{◌==◌ as str_eq}

abbrev pub Bytes : Type 0
Bytes = List ℕ

-- `keep_last`: of the entries with one name, the last.
module _ {A : Type 0} (name : A → String) where
  unfoldable pub retain_new : List String → List A → List A
  unfolding any
  retain_new seen [] = []
  retain_new seen (x ∷ xs) =
      if any (str_eq (name x)) seen then retain_new seen xs else x ∷ retain_new (name x ∷ seen) xs

  unfoldable pub keep_last : List A → List A
  unfolding retain_new
  keep_last items = reverse (retain_new [] (reverse items))

abbrev pub own_name : String → String
own_name n = n

unfoldable pub dedupe_selectors : ItemSummary → ItemSummary
unfolding keep_last
dedupe_selectors s = record s {
  fields = keep_last (λ (f : FieldRef). f.name) s.fields;
  totp_fields = keep_last own_name s.totp_fields;
}

abbrev kind_of : Option String → ItemKind
kind_of none = ItemKind.unknown ""
kind_of (some name) = from_cli name

unfoldable pub empty_summary : RawItem → ShareId → String → ItemSummary
unfolding from_cli parse_timestamp
empty_summary raw share vault_name = record {
  key = record { share = unwrap_or raw.share_id share; item = raw.id };
  vault_name = vault_name;
  kind = kind_of raw.item_type;
  title = unwrap_or raw.title "";
  username = none;
  email = none;
  subtitle = none;
  urls = [];
  totp_fields = [];
  fields = [];
  modified_at = unwrap_or (parse_timestamp raw.modify_time) (pos 0);
}

unfoldable pub filled : Option RawContent → ItemSummary → ItemSummary
unfolding fill
filled none s = s
filled (some c) s = fill c s

-- `RawItem::into_summary`.
unfoldable pub into_summary : ShareId → String → RawItem → ItemSummary
unfolding dedupe_selectors filled empty_summary
into_summary share vault_name raw =
    dedupe_selectors (filled raw.content (empty_summary raw share vault_name))

-- `json`: what the JSON library makes of the bytes, else a protocol error.
unfoldable pub json : {A : Type 0} → Option A → String → Result A
json none command = err (protocol command)
json (some a) command = ok a

abbrev pub map_ok : {A B : Type 0} → (A → B) → Result A → Result B
map_ok f (ok a) = ok (f a)
map_ok f (err e) = err e

-- The decoders of the JSON library for the commands' answers.
pub record Answers : Type 0 where
  pub info_id : Bytes → Option String
  pub vault_list : Bytes → Option (List (ShareId × String))
  pub item_list : Bytes → Option (List RawItem)
  pub codes_map : Bytes → Option (List (String × String))
  pub from_utf8 : Bytes → Option String

abbrev vault_of : ShareId × String → Vault
vault_of (share_id, name) = record { share_id = share_id; name = name }

unfoldable pub is_active : RawItem → Bool
unfolding eq_ignore_ascii_case
is_active i = not (eq_ignore_ascii_case i.state "trashed")

-- A reversed text without the line ending that it starts with: a line feed, and a carriage return
-- before it.
unfoldable pub cut_newline : List Char → List Char
cut_newline [] = []
cut_newline (c ∷ []) = if code c == b'\n' then [] else c ∷ []
cut_newline (c ∷ d ∷ cs) =
    if code c == b'\n' then (if code d == b'\r' then cs else d ∷ cs) else c ∷ d ∷ cs

unfoldable pub without_newline : String → String
unfolding cut_newline
without_newline text = from_chars (reverse (cut_newline (reverse (chars text))))

-- `trim_start_matches('v')`.
unfoldable pub trim_v : List Char → List Char
trim_v [] = []
trim_v (c ∷ cs) = let rest = trim_v cs in if code c == b'v' then rest else c ∷ cs

-- The first word that reads as a version.
unfoldable pub find_version : List (List Char) → Option CliVersion
unfolding trim_v from_str
find_version [] = none
find_version (word ∷ words) = or_else (from_str (trim_v word)) (find_version words)

abbrev words_of : Option String → List (List Char)
words_of none = []
words_of (some text) = split_whitespace (chars text)

module _ (a : Answers) where
  unfoldable pub parse_account : Bytes → Result AccountId
  unfolding json
  parse_account bytes = json (a.info_id bytes) "info"

  unfoldable pub parse_vaults : Bytes → Result (List Vault)
  unfolding json
  parse_vaults bytes = map_ok (map vault_of) (json (a.vault_list bytes) "vault list")

  unfoldable pub parse_items : Bytes → ShareId → String → Result (List ItemSummary)
  unfolding json is_active into_summary keep
  parse_items bytes share vault_name =
      map_ok (λ items. map (into_summary share vault_name) (keep is_active items))
        (json (a.item_list bytes) "item list")

  unfoldable pub parse_totp : Bytes → Result (List (String × String))
  unfolding json
  parse_totp bytes = json (a.codes_map bytes) "item totp"

  -- The value, and one newline at most after it.
  unfoldable pub parse_field : Bytes → Result String
  unfolding json without_newline
  parse_field bytes = map_ok without_newline (json (a.from_utf8 bytes) "item view")

  unfoldable pub parse_version : Bytes → Result CliVersion
  unfolding json find_version split_whitespace
  parse_version bytes = json (find_version (words_of (a.from_utf8 bytes))) "--version"
