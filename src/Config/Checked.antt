-- ===== src/Config/Checked.antt =====
-- src/config.rs: what validation guarantees.
use cosmic_pass.Base.{
  ℕ, ◌≤◌, ◌≡◌, refl, Bool, true, false, List, [], ◌∷◌, arith, ◌==◌, is_some, ◌||◌,
}
use cosmic_pass.Base.Unicode.{Unicode}
use cosmic_pass.Config.Types.{
  Action, copy_primary, copy_username, copy_totp, copy_url, open_actions, reveal, refresh,
  preferences, sign_in, retry, KeyChord, all_of_them, rank, lookup, insert, remove, Shortcuts,
  Preferences, normalized_chord,
}
use cosmic_pass.Config.Validate.{clamp, kept_chord, validate_loop, validated}

-- The ranges of the preferences, and a chord stored for every action.
pub record IsValid (p : Preferences) : Type 0 where
  pub clear_low : 10 ≤ p.clipboard_clear_secs
  pub clear_high : p.clipboard_clear_secs ≤ 600
  pub stale_low : 30 ≤ p.refresh_stale_secs
  pub stale_high : p.refresh_stale_secs ≤ 86400
  pub results_low : 5 ≤ p.max_results
  pub results_high : p.max_results ≤ 200
  pub complete : (a : Action) → is_some (lookup a p.shortcuts) ≡ true

lookup-insert :
    (a : Action) (c : KeyChord) (b : Action) (s : Shortcuts)
    → is_some (lookup b (insert a c s)) ≡ (rank a == rank b || is_some (lookup b s))
unfolding lookup insert
lookup-insert a c b [] = ground arith
lookup-insert a c b ((d, e) ∷ s) = ground (arith, lookup-insert a c b s)

abbrev pub is_among : Action → List Action → Bool
is_among b [] = false
is_among b (a ∷ actions) = rank a == rank b || is_among b actions

-- The loop stores a chord for each of its actions and keeps those that are stored.
validate_loop_stores :
    (u : Unicode) (actions : List Action) (stored : Shortcuts) (used : List KeyChord)
    (acc : Shortcuts) (b : Action)
    → (is_among b actions || is_some (lookup b acc)) ≡ true
    → is_some (lookup b (validate_loop u actions stored used acc)) ≡ true
unfolding validate_loop
validate_loop_stores u [] stored used acc b h = h
validate_loop_stores u (a ∷ actions) stored used acc b h =
    let c = kept_chord u used a (lookup a stored) in
    validate_loop_stores u actions (remove a stored) (normalized_chord u c ∷ used) (insert a c acc)
      b (ground (arith, lookup-insert a c b acc))

pub is_among-all_of_them : (b : Action) → is_among b all_of_them ≡ true
unfolding rank
is_among-all_of_them copy_primary = refl
is_among-all_of_them copy_username = refl
is_among-all_of_them copy_totp = refl
is_among-all_of_them copy_url = refl
is_among-all_of_them open_actions = refl
is_among-all_of_them reveal = refl
is_among-all_of_them refresh = refl
is_among-all_of_them preferences = refl
is_among-all_of_them sign_in = refl
is_among-all_of_them retry = refl

clamp_bounds : (v low high : ℕ) → low ≤ high → (low ≤ clamp v low high) × (clamp v low high ≤ high)
unfolding clamp
clamp_bounds v low high h = ground arith

-- Whatever was stored, validated preferences have their numbers in range, and a chord stored for
-- each action.
pub validated-IsValid : (u : Unicode) (p : Preferences) → IsValid (validated u p)
unfolding validated
validated-IsValid u p =
    let (a, b) = clamp_bounds p.clipboard_clear_secs 10 600 (omega arith) in
    let (c, d) = clamp_bounds p.refresh_stale_secs 30 86400 (omega arith) in
    let (e, f) = clamp_bounds p.max_results 5 200 (omega arith) in
    record {
      clear_low = a;
      clear_high = b;
      stale_low = c;
      stale_high = d;
      results_low = e;
      results_high = f;
      complete = λ x.
          validate_loop_stores u all_of_them p.shortcuts [] [] x
            (ground (arith, is_among-all_of_them x));
    }
