-- ===== src/Config/Conflicts.antt =====
-- src/config.rs: what `conflict` finds.
use cosmic_pass.Base.{
  ◌≡◌, refl, Bool, true, false, not, ◌&&◌, Option, none, some, List, [], ◌∷◌, ◌==◌, find,
  find_holds, All, Bool-cases, inl, inr, decide,
}
use cosmic_pass.Base.Unicode.{Unicode}
use cosmic_pass.Config.Types.{
  Action, copy_primary, copy_username, copy_totp, copy_url, open_actions, reveal, refresh,
  preferences, sign_in, retry, KeyChord, all_of_them, rank, normalized_chord, chord_discrete,
  Preferences,
}
use cosmic_pass.Config.Validate.{chord, conflict}

-- Whether two actions differ and have one chord, but for the order of its modifiers and letter case.
abbrev pub clashes : Unicode → Preferences → Action → KeyChord → Action → Bool
clashes u p action wanted other =
    not (rank other == rank action)
    && decide (chord_discrete (normalized_chord u (chord p other)) (normalized_chord u wanted))

find_misses :
    (p : Action → Bool) (actions : List Action)
    → find p actions ≡ none
    → All (λ a. p a ≡ false) actions
unfolding find
find_misses p [] h = tt
find_misses p (a ∷ actions) h = elim (Bool-cases (p a)) [
  | inl e ↦ absurd (cc (e, h))
  | inr e ↦ (e, find_misses p actions (rw e at h))
]

-- What holds of each action in the list of all holds of every action.
of_all : (P : Action → Type 0) → All P all_of_them → (a : Action) → P a
of_all P h copy_primary = h.0
of_all P h copy_username = h.1.0
of_all P h copy_totp = h.1.1.0
of_all P h copy_url = h.1.1.1.0
of_all P h open_actions = h.1.1.1.1.0
of_all P h reveal = h.1.1.1.1.1.0
of_all P h refresh = h.1.1.1.1.1.1.0
of_all P h preferences = h.1.1.1.1.1.1.1.0
of_all P h sign_in = h.1.1.1.1.1.1.1.1.0
of_all P h retry = h.1.1.1.1.1.1.1.1.1.0

abbrev pub FoundClash : Unicode → Preferences → Action → KeyChord → Option Action → Type 0
FoundClash u p action wanted (some other) = clashes u p action wanted other ≡ true
FoundClash u p action wanted none = (other : Action) → clashes u p action wanted other ≡ false

FoundClash-of :
    (u : Unicode) (p : Preferences) (action : Action) (wanted : KeyChord) (o : Option Action)
    → find (clashes u p action wanted) all_of_them ≡ o
    → FoundClash u p action wanted o
FoundClash-of u p action wanted (some other) h =
    find_holds (clashes u p action wanted) all_of_them h
FoundClash-of u p action wanted none h =
    of_all (λ a. clashes u p action wanted a ≡ false)
      (find_misses (clashes u p action wanted) all_of_them h)

-- `conflict` names an action that clashes with the wanted chord, and `none` only if none does.
pub conflict_clashes :
    (u : Unicode) (p : Preferences) (action : Action) (wanted : KeyChord)
    → FoundClash u p action wanted (conflict u p action wanted)
unfolding conflict
conflict_clashes u p action wanted =
    FoundClash-of u p action wanted (conflict u p action wanted) refl
