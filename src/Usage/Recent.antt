-- ===== src/Usage/Recent.antt =====
-- src/core/usage.rs: eviction never takes the use that was just recorded.
use cosmic_pass.Base.{
  ℕ, zero, suc, ◌<◌, ◌≡◌, refl, Bool, true, false, not, ◌&&◌, ◌||◌, some, none, List, [], ◌∷◌,
  arith, if◌then◌else◌, decide, length, all, any, Option-cases, Bool-cases, inl, inr, is_lt, ltb,
  ◌∙◌,
}
use cosmic_pass.Base.Int.{ℤ, eqb_ℤ, ltb_ℤ}
use cosmic_pass.Domain.Items.{ItemKey, UsageRecord, key_discrete}
use cosmic_pass.Usage.Table.{max_records, get, remove, compare_age, oldest, evict_loop}
use cosmic_pass.Usage.Capacity.{is_filed}

-- Whether every record has a key of its own.
unfoldable pub is_distinct : List UsageRecord → Bool
unfolding is_filed
is_distinct [] = true
is_distinct (r ∷ rs) = not (is_filed r.key rs) && is_distinct rs

-- Whether a record of another key was used before `now`.
abbrev pub is_older : ItemKey → ℤ → UsageRecord → Bool
is_older k now r = decide (key_discrete r.key k) || ltb_ℤ r.last_used now

-- And the record of the key itself, at `now`.
abbrev pub is_recent : ItemKey → ℤ → UsageRecord → Bool
is_recent k now r =
    if decide (key_discrete r.key k) then eqb_ℤ r.last_used now else ltb_ℤ r.last_used now

older_first :
    (a b : UsageRecord) → ltb_ℤ a.last_used b.last_used ≡ true → is_lt (compare_age a b) ≡ true
unfolding compare_age
older_first a b h = ground arith

newer_later :
    (a b : UsageRecord) → ltb_ℤ b.last_used a.last_used ≡ true → is_lt (compare_age a b) ≡ false
unfolding compare_age
newer_later a b h = ground arith

abbrev pub is_foreign : ItemKey → UsageRecord → Bool
is_foreign k r = not (decide (key_discrete r.key k))

none_of_oldest :
    (p : UsageRecord → Bool) (rs : List UsageRecord) → oldest rs ≡ none → any p rs ≡ false
unfolding oldest any
none_of_oldest p [] h = refl
none_of_oldest p (r ∷ rs) h = ground arith

oldest_holds :
    (p : UsageRecord → Bool) (rs : List UsageRecord) (x : UsageRecord)
    → all p rs ≡ true
    → oldest rs ≡ some x
    → p x ≡ true
unfolding oldest all
oldest_holds p [] x a h = cc
oldest_holds p (r ∷ rs) x a h = elim (Option-cases (oldest rs)) [
  | inl n ↦ ground (arith, n)
  | inr (y, n) ↦ ground (arith, n, oldest_holds p rs y)
]

pick_is_foreign :
    (k : ItemKey) (now : ℤ) (x r : UsageRecord)
    → is_recent k now x ≡ true
    → is_recent k now r ≡ true
    → (is_foreign k x || is_foreign k r) ≡ true
    → is_foreign k (if is_lt (compare_age x r) then x else r) ≡ true
pick_is_foreign k now x r a b h = elim (Bool-cases (is_lt (compare_age x r))) [
  | inl e ↦ rw e (ground (arith, newer_later x r))
  | inr e ↦ rw e (ground (arith, older_first x r))
]

-- While a record of another key is there, the oldest record is one of another key.
oldest-is_foreign :
    (k : ItemKey) (now : ℤ) (rs : List UsageRecord) (s : UsageRecord)
    → all (is_recent k now) rs ≡ true
    → any (is_foreign k) rs ≡ true
    → oldest rs ≡ some s
    → is_foreign k s ≡ true
unfolding oldest all any
oldest-is_foreign k now [] s a h e = cc
oldest-is_foreign k now (r ∷ rs) s a h e = elim (Option-cases (oldest rs)) [
  | inl n ↦ ground (arith, n, none_of_oldest (is_foreign k) rs n)
  | inr (x, n) ↦
      let rest : all (is_recent k now) rs ≡ true = ground (arith, a) in
      let foreign : (is_foreign k x || is_foreign k r) ≡ true =
        ground
          (arith, h, λ (q : any (is_foreign k) rs ≡ true). oldest-is_foreign k now rs x rest q n) in
      let picked =
        pick_is_foreign k now x r (oldest_holds (is_recent k now) rs x rest n) (ground (arith, a))
          foreign in
      cc (e, n, picked)
]

-- Of two records with keys of their own one has another key.
any-is_foreign :
    (k : ItemKey) (rs : List UsageRecord)
    → is_distinct rs ≡ true
    → 1 < length rs
    → any (is_foreign k) rs ≡ true
unfolding is_distinct is_filed any decide
any-is_foreign k [] d h = absurd (omega arith)
any-is_foreign k (r ∷ []) d h = absurd (omega arith)
any-is_foreign k (r ∷ q ∷ rs) d h = ground arith

pub all-remove :
    (p : UsageRecord → Bool) (k : ItemKey) (rs : List UsageRecord)
    → all p rs ≡ true
    → all p (remove k rs) ≡ true
unfolding all remove
all-remove p k [] h = refl
all-remove p k (r ∷ rs) h = ground (arith, all-remove p k rs)

is_filed-remove :
    (j k : ItemKey) (rs : List UsageRecord)
    → is_filed j rs ≡ false
    → is_filed j (remove k rs) ≡ false
unfolding is_filed any remove
is_filed-remove j k [] h = refl
is_filed-remove j k (r ∷ rs) h = ground (arith, is_filed-remove j k rs)

pub is_distinct-remove :
    (k : ItemKey) (rs : List UsageRecord) → is_distinct rs ≡ true → is_distinct (remove k rs) ≡ true
unfolding is_distinct remove
is_distinct-remove k [] h = refl
is_distinct-remove k (r ∷ rs) h =
    ground (arith, is_filed-remove r.key k rs, is_distinct-remove k rs)

-- Removing another key's record leaves the record of a key.
get-remove :
    (k : ItemKey) (s : UsageRecord) (rs : List UsageRecord)
    → is_foreign k s ≡ true
    → get k (remove s.key rs) ≡ get k rs
unfolding get remove decide
get-remove k s [] h = refl
get-remove k s (r ∷ rs) h = ground (arith, get-remove k s rs h)

pub get-evict_loop :
    (k : ItemKey) (now : ℤ) (fuel : ℕ) (rs : List UsageRecord)
    → all (is_recent k now) rs ≡ true
    → is_distinct rs ≡ true
    → get k (evict_loop fuel rs) ≡ get k rs
unfolding evict_loop
get-evict_loop k now zero rs a d = refl
get-evict_loop k now (suc fuel) rs a d = elim (Bool-cases (ltb max_records (length rs))) [
  | inr e ↦ rw e refl
  | inl e ↦ rw e (elim (Option-cases (oldest rs)) [
    | inl n ↦ rw n refl
    | inr (s, n) ↦ rw n (
        get-evict_loop k now fuel (remove s.key rs) (all-remove (is_recent k now) s.key rs a)
          (is_distinct-remove s.key rs d)
        ∙ get-remove k s rs
            (oldest-is_foreign k now rs s a (any-is_foreign k rs d (ground (arith, e))) n))
  ])
]
