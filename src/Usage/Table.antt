-- ===== src/Usage/Table.antt =====
-- src/core/usage.rs: `UsageTable`. The hash map is an association list in which a key stands once.
use cosmic_pass.Base.{
  ℕ, suc, zero, ◌+◌, Bool, Option, some, none, List, [], ◌∷◌, if◌then◌else◌, ltb, decide, then_with,
  is_lt, Ordering, min, any, keep, length, sort_by,
}
use cosmic_pass.Base.Int.{ℤ, compare_ℤ, u32_max}
use cosmic_pass.Domain.Items.{ItemKey, ItemSummary, UsageRecord, key_discrete, compare_key}

abbrev pub max_records : ℕ
max_records = 200

-- The map's entries. Every record is filed under its own key.
pub record UsageTable : Type 0 where
  pub records : List UsageRecord

abbrev pub empty_table : UsageTable
empty_table = record { records = [] }

-- `HashMap::get`.
unfoldable pub get : ItemKey → List UsageRecord → Option UsageRecord
unfolding decide
get k [] = none
get k (r ∷ rs) = let rest = get k rs in if decide (key_discrete r.key k) then some r else rest

-- `HashMap::insert`: the record replaces the one that has its key.
unfoldable pub insert : UsageRecord → List UsageRecord → List UsageRecord
unfolding decide
insert r [] = r ∷ []
insert r (s ∷ rs) =
    let rest = insert r rs in if decide (key_discrete s.key r.key) then r ∷ rs else s ∷ rest

-- `HashMap::remove`.
unfoldable pub remove : ItemKey → List UsageRecord → List UsageRecord
unfolding decide
remove k [] = []
remove k (r ∷ rs) = let rest = remove k rs in if decide (key_discrete r.key k) then rs else r ∷ rest

-- The order of eviction: the oldest use first, then the smaller key.
unfoldable pub compare_age : UsageRecord → UsageRecord → Ordering
unfolding compare_key
compare_age a b = then_with (compare_ℤ a.last_used b.last_used) (compare_key a.key b.key)

-- The least record by age, `none` of an empty table.
unfoldable pub oldest : List UsageRecord → Option UsageRecord
unfolding compare_age
oldest [] = none
oldest (r ∷ rs) = elim (oldest rs) [
  | none ↦ some r
  | some s ↦ some (if is_lt (compare_age s r) then s else r)
]

-- One round of the eviction loop, over the fuel of the entries at hand.
unfoldable pub evict_loop : ℕ → List UsageRecord → List UsageRecord
unfolding oldest remove
evict_loop zero rs = rs
evict_loop (suc fuel) rs =
    let next : List UsageRecord = elim (oldest rs) [
      | none ↦ rs
      | some r ↦ evict_loop fuel (remove r.key rs)
    ] in
    if ltb max_records (length rs) then next else rs

unfoldable pub evict : List UsageRecord → List UsageRecord
unfolding evict_loop
evict rs = evict_loop (length rs) rs

unfoldable pub collect : List UsageRecord → List UsageRecord → List UsageRecord
unfolding insert
collect acc [] = acc
collect acc (r ∷ rs) = collect (insert r acc) rs

unfoldable pub from_records : List UsageRecord → UsageTable
unfolding collect evict
from_records rs = record { records = evict (collect [] rs) }

-- The most recent use first, then the smaller key.
unfoldable pub compare_recent : UsageRecord → UsageRecord → Ordering
unfolding compare_key
compare_recent a b = then_with (compare_ℤ b.last_used a.last_used) (compare_key a.key b.key)

-- `UsageTable::records`.
unfoldable pub records : UsageTable → List UsageRecord
unfolding compare_recent sort_by
records t = sort_by compare_recent t.records

-- The entry after one more use; the count stops at the width of `u32`.
unfoldable pub used_once_more : ItemKey → ℤ → Option UsageRecord → UsageRecord
used_once_more k now none = record { key = k; last_used = now; count = 1 }
used_once_more k now (some r) = record {
  key = r.key;
  last_used = now;
  count = min (r.count + 1) u32_max;
}

-- `UsageTable::record`.
unfoldable pub record_use : UsageTable → ItemKey → ℤ → UsageTable
unfolding evict insert used_once_more get
record_use t k now = record {
  records = evict (insert (used_once_more k now (get k t.records)) t.records);
}

-- `UsageTable::recency`.
unfoldable pub recency : UsageTable → ItemKey → Option ℤ
unfolding get
recency t k = elim (get k t.records) [ none ↦ none | some r ↦ some r.last_used ]

unfoldable pub is_live : List ItemSummary → ItemKey → Bool
unfolding any decide
is_live items k = any (λ i. decide (key_discrete i.key k)) items

-- `UsageTable::prune`: records whose item no longer exists are dropped.
unfoldable pub prune : List ItemSummary → UsageTable → UsageTable
unfolding keep is_live
prune items t = record { records = keep (λ r. is_live items r.key) t.records }
