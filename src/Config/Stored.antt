-- ===== src/Config/Stored.antt =====
-- src/config.rs: the reading of a stored map of shortcuts. A stored map is the list of its entries; the
-- decoder of a chord is a parameter.
use cosmic_pass.Base.{
  ◌≡◌, refl, sym, ◌∙◌, ap, String, Bool, true, false, Option, none, some, List, [], ◌∷◌,
  if◌then◌else◌, ◌==◌, find, find_holds, and_then, arith, Option-cases, inl, inr, or_else,
}
use cosmic_pass.Config.Types.{
  Action, copy_primary, copy_username, copy_totp, copy_url, open_actions, reveal, refresh,
  preferences, sign_in, retry, rank, all_of_them, KeyChord, Shortcuts, lookup, insert,
}
use text.Mathlib.Text.{◌==◌ as str_eq}
use text.Mathlib.TextEquality.{eq_iff}

-- The names of the actions in a stored map.
unfoldable pub action_name : Action → String
action_name copy_primary = "copy_primary"
action_name copy_username = "copy_username"
action_name copy_totp = "copy_totp"
action_name copy_url = "copy_url"
action_name open_actions = "open_actions"
action_name reveal = "reveal"
action_name refresh = "refresh"
action_name preferences = "preferences"
action_name sign_in = "sign_in"
action_name retry = "retry"

-- `ActionNameVisitor`: the action of a name, `none` for a name that this version does not know.
unfoldable pub action_named : String → Option Action
unfolding find action_name
action_named name = find (λ a. str_eq name (action_name a)) all_of_them

abbrev stored_as : Option Action → KeyChord → Shortcuts → Shortcuts
stored_as none chord s = s
stored_as (some a) chord s = insert a chord s

module _ {V : Type 0} (decode : V → Option KeyChord) where
  -- `ShortcutsVisitor`'s `visit_map`, from the entries that were read before. A chord that cannot be
  -- decoded ends the reading, whatever its name.
  unfoldable pub visit_map : Shortcuts → List (String × V) → Option Shortcuts
  unfolding action_named insert
  visit_map s [] = some s
  visit_map s ((name, v) ∷ entries) =
      and_then (decode v) (λ chord. visit_map (stored_as (action_named name) chord s) entries)

by_action :
    (P : Action → Type 0)
    → P copy_primary
    → P copy_username
    → P copy_totp
    → P copy_url
    → P open_actions
    → P reveal
    → P refresh
    → P preferences
    → P sign_in
    → P retry
    → (a : Action) → P a
by_action P a b c d e f g h i j copy_primary = a
by_action P a b c d e f g h i j copy_username = b
by_action P a b c d e f g h i j copy_totp = c
by_action P a b c d e f g h i j copy_url = d
by_action P a b c d e f g h i j open_actions = e
by_action P a b c d e f g h i j reveal = f
by_action P a b c d e f g h i j refresh = g
by_action P a b c d e f g h i j preferences = h
by_action P a b c d e f g h i j sign_in = i
by_action P a b c d e f g h i j retry = j

names_differ : (b a : Action) → str_eq (action_name b) (action_name a) ≡ (rank b == rank a)
unfolding action_name rank
names_differ =
    by_action (λ b. (a : Action) → str_eq (action_name b) (action_name a) ≡ (rank b == rank a))
      (by_action
        (λ a. str_eq (action_name copy_primary) (action_name a) ≡ (rank copy_primary == rank a))
        refl refl refl refl refl refl refl refl refl refl)
      (by_action
        (λ a. str_eq (action_name copy_username) (action_name a) ≡ (rank copy_username == rank a))
        refl refl refl refl refl refl refl refl refl refl)
      (by_action (λ a. str_eq (action_name copy_totp) (action_name a) ≡ (rank copy_totp == rank a))
        refl refl refl refl refl refl refl refl refl refl)
      (by_action (λ a. str_eq (action_name copy_url) (action_name a) ≡ (rank copy_url == rank a))
        refl refl refl refl refl refl refl refl refl refl)
      (by_action
        (λ a. str_eq (action_name open_actions) (action_name a) ≡ (rank open_actions == rank a))
        refl refl refl refl refl refl refl refl refl refl)
      (by_action (λ a. str_eq (action_name reveal) (action_name a) ≡ (rank reveal == rank a)) refl
        refl refl refl refl refl refl refl refl refl)
      (by_action (λ a. str_eq (action_name refresh) (action_name a) ≡ (rank refresh == rank a)) refl
        refl refl refl refl refl refl refl refl refl)
      (by_action
        (λ a. str_eq (action_name preferences) (action_name a) ≡ (rank preferences == rank a)) refl
        refl refl refl refl refl refl refl refl refl)
      (by_action (λ a. str_eq (action_name sign_in) (action_name a) ≡ (rank sign_in == rank a)) refl
        refl refl refl refl refl refl refl refl refl)
      (by_action (λ a. str_eq (action_name retry) (action_name a) ≡ (rank retry == rank a)) refl
        refl refl refl refl refl refl refl refl refl)

is_unknown :
    (name : String) → action_named name ≡ none → (a : Action) → str_eq name (action_name a) ≡ false
unfolding action_named find
is_unknown name h =
    by_action (λ a. str_eq name (action_name a) ≡ false) (ground (arith, h)) (ground (arith, h))
      (ground (arith, h)) (ground (arith, h)) (ground (arith, h)) (ground (arith, h))
      (ground (arith, h)) (ground (arith, h)) (ground (arith, h)) (ground (arith, h))

lookup-insert_of :
    (a b : Action) (c : KeyChord) (s : Shortcuts)
    → lookup a (insert b c s) ≡ (if rank b == rank a then some c else lookup a s)
unfolding lookup insert
lookup-insert_of a b c [] = refl
lookup-insert_of a b c ((d, e) ∷ s) = ground (arith, lookup-insert_of a b c s)

abbrev found : Bool → KeyChord → Option KeyChord
found b chord = if b then some chord else none

or_else-found :
    (b : Bool) (c : KeyChord) (o : Option KeyChord)
    → (if b then some c else o) ≡ or_else (found b c) o
or_else-found true c o = refl
or_else-found false c o = refl

named_as :
    (name : String) (b : Action) → action_named name ≡ some b → str_eq name (action_name b) ≡ true
unfolding action_named
named_as name b h = find_holds (λ a. str_eq name (action_name a)) all_of_them h

shortcuts_or : Shortcuts → Option Shortcuts → Shortcuts
shortcuts_or s none = s
shortcuts_or s (some t) = t

lookup-stored_as :
    (a : Action) (name : String) (chord : KeyChord) (s : Shortcuts)
    → lookup a (stored_as (action_named name) chord s)
      ≡ or_else (found (str_eq name (action_name a)) chord) (lookup a s)
lookup-stored_as a name chord s = elim (Option-cases (action_named name)) [
  | inl e ↦ rw (e, is_unknown name e a) refl
  | inr (b, e) ↦
      let same = (eq_iff name (action_name b)).0 (named_as name b e) in
      ap (λ o. lookup a (stored_as o chord s)) e
      ∙ lookup-insert_of a b chord s
      ∙ or_else-found (rank b == rank a) chord (lookup a s)
      ∙ ap (λ t. or_else (found t chord) (lookup a s))
          (sym (names_differ b a) ∙ ap (λ n. str_eq n (action_name a)) (sym same))
]

or_else_assoc : (a b c : Option KeyChord) → or_else a (or_else b c) ≡ or_else (or_else a b) c
or_else_assoc none b c = refl
or_else_assoc (some x) b c = refl

module _ {V : Type 0} (decode : V → Option KeyChord) where
  -- The chord of the last entry that bears an action's name.
  unfoldable pub last_stored : Action → List (String × V) → Option KeyChord
  last_stored a [] = none
  last_stored a ((name, v) ∷ entries) =
      or_else (last_stored a entries) (if str_eq name (action_name a) then decode v else none)

  visit_map-last :
      (a : Action) (s t : Shortcuts) (entries : List (String × V))
      → visit_map decode s entries ≡ some t
      → lookup a t ≡ or_else (last_stored a entries) (lookup a s)
  unfolding visit_map last_stored shortcuts_or
  visit_map-last a s t [] h = ap (λ o. lookup a (shortcuts_or s o)) (sym h)
  visit_map-last a s t ((name, v) ∷ entries) h = elim (Option-cases (decode v)) [
    | inl e ↦ absurd (cc (rw (e, visit_map) at h))
    | inr (chord, e) ↦
        visit_map-last a (stored_as (action_named name) chord s) t entries (rw (e, visit_map) at h)
        ∙ ap (or_else (last_stored a entries)) (lookup-stored_as a name chord s)
        ∙ or_else_assoc (last_stored a entries) (found (str_eq name (action_name a)) chord)
            (lookup a s)
        ∙ ap
            (λ o.
              or_else
                (or_else (last_stored a entries) (if str_eq name (action_name a) then o else none))
                (lookup a s))
            (sym e)
  ]

  or_else-nothing : (o : Option KeyChord) → or_else o none ≡ o
  or_else-nothing none = refl
  or_else-nothing (some c) = refl

  -- A stored map that is read gives each action the chord of the last entry that bears its name, and none
  -- if no entry does, whatever other names it has.
  pub lookup-visit_map :
      (a : Action) (t : Shortcuts) (entries : List (String × V))
      → visit_map decode [] entries ≡ some t
      → lookup a t ≡ last_stored a entries
  unfolding lookup
  lookup-visit_map a t entries h =
      visit_map-last a [] t entries h ∙ or_else-nothing (last_stored a entries)
