-- ===== src/Usage/Recorded.antt =====
-- src/core/usage.rs: what recording a use leaves in the table.
use cosmic_pass.Base.{
  ℕ, zero, suc, ◌≡◌, refl, ◌∙◌, Bool, true, false, ◌||◌, Option, some, none, List, [], ◌∷◌, arith,
  decide, length, all, any, keep, Option-cases, ap, if_keeps, inl, inr, ltb,
}
use cosmic_pass.Base.Int.{ℤ, eqb_ℤ}
use cosmic_pass.Domain.Items.{ItemKey, ItemSummary, UsageRecord, key_discrete}
use cosmic_pass.Usage.Table.{
  max_records, UsageTable, get, insert, remove, oldest, evict_loop, evict, collect, from_records,
  used_once_more, record_use, recency, prune, is_live,
}
use cosmic_pass.Usage.Capacity.{is_filed}
use cosmic_pass.Usage.Recent.{is_distinct, is_older, is_recent, is_distinct-remove, get-evict_loop}

abbrev is_of : ItemKey → UsageRecord → Bool
is_of k r = decide (key_discrete r.key k)

is_filed-insert :
    (j : ItemKey) (r : UsageRecord) (rs : List UsageRecord)
    → is_filed j (insert r rs) ≡ (is_of j r || is_filed j rs)
unfolding is_filed any insert decide
is_filed-insert j r [] = refl
is_filed-insert j r (s ∷ rs) = ground (arith, is_filed-insert j r rs)

is_distinct-insert :
    (r : UsageRecord) (rs : List UsageRecord)
    → is_distinct rs ≡ true
    → is_distinct (insert r rs) ≡ true
unfolding is_distinct insert decide
is_distinct-insert r [] h = refl
is_distinct-insert r (s ∷ rs) h =
    ground (arith, is_filed-insert s.key r rs, is_distinct-insert r rs)

get-insert :
    (k : ItemKey) (r : UsageRecord) (rs : List UsageRecord)
    → is_of k r ≡ true
    → get k (insert r rs) ≡ some r
unfolding get insert decide
get-insert k r [] h = ground arith
get-insert k r (s ∷ rs) h = ground (arith, get-insert k r rs h)

-- Where no record has the key, all the older ones are as they should be.
all-is_recent :
    (k : ItemKey) (now : ℤ) (rs : List UsageRecord)
    → is_filed k rs ≡ false
    → all (is_older k now) rs ≡ true
    → all (is_recent k now) rs ≡ true
unfolding is_filed any all
all-is_recent k now [] f h = refl
all-is_recent k now (r ∷ rs) f h = ground (arith, all-is_recent k now rs)

all-insert :
    (k : ItemKey) (now : ℤ) (r : UsageRecord) (rs : List UsageRecord)
    → is_of k r ≡ true
    → is_recent k now r ≡ true
    → is_distinct rs ≡ true
    → all (is_older k now) rs ≡ true
    → all (is_recent k now) (insert r rs) ≡ true
unfolding insert all is_distinct decide
all-insert k now r [] o n d h = ground arith
all-insert k now r (s ∷ rs) o n d h =
    ground (arith, all-insert k now r rs o n, all-is_recent k now rs)

get-is_of :
    (k : ItemKey) (rs : List UsageRecord) {r : UsageRecord} → get k rs ≡ some r → is_of k r ≡ true
unfolding get
get-is_of k [] e = cc
get-is_of k (s ∷ rs) {r} e = ground (arith, λ (q : get k rs ≡ some r). get-is_of k rs q)

used_once_more-is_of :
    (k : ItemKey) (now : ℤ) (rs : List UsageRecord)
    → is_of k (used_once_more k now (get k rs)) ≡ true
unfolding used_once_more decide
used_once_more-is_of k now rs = elim (Option-cases (get k rs)) [
  | inl e ↦ rw e (ground arith)
  | inr (r, e) ↦ rw e (get-is_of k rs e)
]

used_once_more-last_used :
    (k : ItemKey) (now : ℤ) (o : Option UsageRecord) → (used_once_more k now o).last_used ≡ now
unfolding used_once_more
used_once_more-last_used k now none = refl
used_once_more-last_used k now (some r) = refl

is_distinct-evict_loop :
    (fuel : ℕ) (rs : List UsageRecord)
    → is_distinct rs ≡ true
    → is_distinct (evict_loop fuel rs) ≡ true
unfolding evict_loop
is_distinct-evict_loop zero rs d = d
is_distinct-evict_loop (suc fuel) rs d = elim (Option-cases (oldest rs)) [
  | inl n ↦ rw n (if_keeps (λ l. is_distinct l ≡ true) (ltb max_records (length rs)) d d)
  | inr (s, n) ↦ rw n (
      if_keeps (λ l. is_distinct l ≡ true) (ltb max_records (length rs))
        (is_distinct-evict_loop fuel (remove s.key rs) (is_distinct-remove s.key rs d)) d)
]

-- Recording a use keeps one record for each key.
pub is_distinct-record_use :
    (t : UsageTable) (k : ItemKey) (now : ℤ)
    → is_distinct t.records ≡ true
    → is_distinct (record_use t k now).records ≡ true
unfolding record_use evict
is_distinct-record_use t k now d =
    let added = insert (used_once_more k now (get k t.records)) t.records in
    is_distinct-evict_loop (length added) added
      (is_distinct-insert (used_once_more k now (get k t.records)) t.records d)

is_distinct-collect :
    (acc rs : List UsageRecord) → is_distinct acc ≡ true → is_distinct (collect acc rs) ≡ true
unfolding collect
is_distinct-collect acc [] d = d
is_distinct-collect acc (r ∷ rs) d =
    is_distinct-collect (insert r acc) rs (is_distinct-insert r acc d)

pub is_distinct-from_records :
    (rs : List UsageRecord) → is_distinct (from_records rs).records ≡ true
unfolding from_records evict is_distinct
is_distinct-from_records rs =
    is_distinct-evict_loop (length (collect [] rs)) (collect [] rs) (is_distinct-collect [] rs refl)

is_filed-keep :
    (j : ItemKey) (p : UsageRecord → Bool) (rs : List UsageRecord)
    → is_filed j rs ≡ false
    → is_filed j (keep p rs) ≡ false
unfolding is_filed any keep
is_filed-keep j p [] h = refl
is_filed-keep j p (r ∷ rs) h = ground (arith, is_filed-keep j p rs)

is_distinct-keep :
    (p : UsageRecord → Bool) (rs : List UsageRecord)
    → is_distinct rs ≡ true
    → is_distinct (keep p rs) ≡ true
unfolding is_distinct keep
is_distinct-keep p [] h = refl
is_distinct-keep p (r ∷ rs) h = ground (arith, is_filed-keep r.key p rs, is_distinct-keep p rs)

pub is_distinct-prune :
    (items : List ItemSummary) (t : UsageTable)
    → is_distinct t.records ≡ true
    → is_distinct (prune items t).records ≡ true
unfolding prune
is_distinct-prune items t d = is_distinct-keep (λ r. is_live items r.key) t.records d

last_used_recency :
    (t : UsageTable) (k : ItemKey) (r : UsageRecord)
    → get k t.records ≡ some r
    → recency t k ≡ some r.last_used
unfolding recency
last_used_recency t k r h = rw (h, recency) refl

eqb_ℤ_self : (a b : ℤ) → a ≡ b → eqb_ℤ a b ≡ true
eqb_ℤ_self a b h = rw h (ground arith)

-- In a table with one record for each key, whose other records are older, a use that is recorded is
-- the last one of its item, however full the table is.
pub recency-record_use :
    (t : UsageTable) (k : ItemKey) (now : ℤ)
    → is_distinct t.records ≡ true
    → all (is_older k now) t.records ≡ true
    → recency (record_use t k now) k ≡ some now
unfolding record_use evict
recency-record_use t k now d a =
    let r = used_once_more k now (get k t.records) in
    let added = insert r t.records in
    let own = used_once_more-is_of k now t.records in
    let at_now = used_once_more-last_used k now (get k t.records) in
    let recent : is_recent k now r ≡ true = rw own (eqb_ℤ_self r.last_used now at_now) in
    last_used_recency (record_use t k now) k r (
      get-evict_loop k now (length added) added (all-insert k now r t.records own recent d a)
        (is_distinct-insert r t.records d)
      ∙ get-insert k r t.records own)
    ∙ ap some at_now
