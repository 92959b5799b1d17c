-- ===== src/Config/Types.antt =====
-- src/config.rs: actions, key chords, the map of shortcuts, and the preferences.
use cosmic_pass.Base.{
  ℕ, String, Bool, true, false, Option, some, none, List, [], ◌∷◌, if◌then◌else◌, ◌==◌, ltb,
  compare, decide, string_discrete, ℕ_discrete, sort_by,
}
use cosmic_pass.Base.Unicode.{Unicode}
use cosmic_pass.Base.Text.{eq_ignore_ascii_case, chars}
use Prim.Native.String.{◌++◌}
use Prim.Native.Char.{Char}

pub data Action : Type 0 where
  copy_primary copy_username copy_totp copy_url open_actions reveal refresh preferences sign_in
        retry :
      Action

-- `Action::ALL`, in declaration order, which is the derived order too.
abbrev pub all_of_them : List Action
all_of_them =
    copy_primary ∷ copy_username ∷ copy_totp ∷ copy_url ∷ open_actions ∷ reveal ∷ refresh
    ∷ preferences ∷ sign_in ∷ retry ∷ []

unfoldable pub rank : Action → ℕ
rank copy_primary = 0
rank copy_username = 1
rank copy_totp = 2
rank copy_url = 3
rank open_actions = 4
rank reveal = 5
rank refresh = 6
rank preferences = 7
rank sign_in = 8
rank retry = 9

unfoldable pub action_label : Action → String
action_label copy_primary = "Copy primary field"
action_label copy_username = "Copy username"
action_label copy_totp = "Copy one-time code"
action_label copy_url = "Copy website"
action_label open_actions = "Show all fields"
action_label reveal = "Reveal secrets"
action_label refresh = "Refresh"
action_label preferences = "Preferences"
action_label sign_in = "Sign in"
action_label retry = "Try again"

pub data Modifier : Type 0 where
  ctrl shift alt super : Modifier

abbrev pub modifier_rank : Modifier → ℕ
modifier_rank ctrl = 0
modifier_rank shift = 1
modifier_rank alt = 2
modifier_rank super = 3

abbrev pub modifier_name : Modifier → String
modifier_name ctrl = "Ctrl"
modifier_name shift = "Shift"
modifier_name alt = "Alt"
modifier_name super = "Super"

-- A key and its modifiers.
pub record KeyChord : Type 0 where
  pub modifiers : List Modifier
  pub key : String

unfoldable pub modifiers_discrete : Discrete (List Modifier)
modifiers_discrete = hlevel

unfoldable pub chord_discrete : Discrete KeyChord
chord_discrete = hlevel (modifiers_discrete, string_discrete)

-- `dedup`: of equal neighbours the first stays.
abbrev pub dedup_after : Modifier → List Modifier → List Modifier
dedup_after m [] = []
dedup_after m (n ∷ ns) =
    let rest = dedup_after n ns in if modifier_rank m == modifier_rank n then rest else n ∷ rest

unfoldable pub dedup : List Modifier → List Modifier
dedup [] = []
dedup (m ∷ ms) = m ∷ dedup_after m ms

-- `sort` and `dedup`.
unfoldable pub sorted : List Modifier → List Modifier
unfolding sort_by dedup
sorted ms = dedup (sort_by (λ a b. compare (modifier_rank a) (modifier_rank b)) ms)

-- `KeyChord::new`.
unfoldable pub new_chord : List Modifier → String → KeyChord
unfolding sorted
new_chord modifiers key = record { modifiers = sorted modifiers; key = key }

-- The modifiers match exactly, the key but for ASCII case.
unfoldable pub matches : KeyChord → List Modifier → String → Bool
unfolding sorted decide eq_ignore_ascii_case
matches c modifiers key =
    if decide (modifiers_discrete (sorted c.modifiers) (sorted modifiers))
    then eq_ignore_ascii_case c.key key
    else false

unfoldable pub normalized_chord : Unicode → KeyChord → KeyChord
unfolding new_chord
normalized_chord u c =
    let chord = new_chord c.modifiers c.key in record chord { key = u.to_lowercase chord.key }

abbrev is_single : List Char → Bool
is_single [] = false
is_single (c ∷ []) = true
is_single (c ∷ d ∷ cs) = false

abbrev pub show_modifiers : List Modifier → String
show_modifiers [] = ""
show_modifiers (m ∷ ms) = modifier_name m ++ "+" ++ show_modifiers ms

-- The `Display` text of a chord.
unfoldable pub show_chord : Unicode → KeyChord → String
show_chord u c =
    show_modifiers c.modifiers ++ (if is_single (chars c.key) then u.to_uppercase c.key else c.key)

-- A `BTreeMap` from actions to chords: its entries, by the order of their actions.
abbrev pub Shortcuts : Type 0
Shortcuts = List (Action × KeyChord)

unfoldable pub lookup : Action → Shortcuts → Option KeyChord
lookup a [] = none
lookup a ((b, c) ∷ m) = let rest = lookup a m in if rank b == rank a then some c else rest

unfoldable pub insert : Action → KeyChord → Shortcuts → Shortcuts
insert a c [] = (a, c) ∷ []
insert a c ((b, d) ∷ m) =
    let rest = insert a c m in
    if rank b == rank a
    then (a, c) ∷ m
    else if ltb (rank a) (rank b)
    then (a, c) ∷ (b, d) ∷ m
    else (b, d) ∷ rest

unfoldable pub remove : Action → Shortcuts → Shortcuts
remove a [] = []
remove a ((b, c) ∷ m) = let rest = remove a m in if rank b == rank a then m else (b, c) ∷ rest

pub record Preferences : Type 0 where
  pub clipboard_clear_secs : ℕ
  pub refresh_stale_secs : ℕ
  pub max_results : ℕ
  pub shortcuts : Shortcuts

action_discrete : Discrete Action
action_discrete = hlevel

unfoldable pub prefs_discrete : Discrete Preferences
unfolding action_discrete
prefs_discrete = hlevel (ℕ_discrete, chord_discrete, action_discrete)
