-- ===== src/Usage/Capacity.antt =====
-- src/core/usage.rs: the table never outgrows its bound.
use cosmic_pass.Base.{
  ℕ, zero, suc, ◌+◌, ◌≤◌, ◌≡◌, refl, Bool, true, some, none, List, [], ◌∷◌, arith, decide, length,
  any, keep, Option-cases, inl, inr,
}
use cosmic_pass.Base.Int.{ℤ}
use cosmic_pass.Domain.Items.{ItemKey, ItemSummary, UsageRecord, key_discrete}
use cosmic_pass.Usage.Table.{
  max_records, UsageTable, get, insert, remove, oldest, evict_loop, evict, collect, from_records,
  record_use, prune, is_live, used_once_more,
}

-- Whether a record is filed under a key.
unfoldable pub is_filed : ItemKey → List UsageRecord → Bool
unfolding any decide
is_filed k rs = any (λ r. decide (key_discrete r.key k)) rs

pub length-remove :
    (k : ItemKey) (rs : List UsageRecord)
    → is_filed k rs ≡ true
    → suc (length (remove k rs)) ≡ length rs
unfolding is_filed any remove
length-remove k [] h = cc
length-remove k (r ∷ rs) h = ground (arith, length-remove k rs)

is_filed_self : (r : UsageRecord) (rs : List UsageRecord) → is_filed r.key (r ∷ rs) ≡ true
unfolding is_filed any decide
is_filed_self r rs = ground arith

pub oldest-is_filed :
    (rs : List UsageRecord) (r : UsageRecord) → oldest rs ≡ some r → is_filed r.key rs ≡ true
unfolding oldest is_filed any decide
oldest-is_filed [] r h = cc
oldest-is_filed (s ∷ rs) r h = elim (Option-cases (oldest rs)) [
  | inl e ↦ ground (arith, is_filed_self s rs)
  | inr (x, e) ↦ ground (arith, is_filed_self s rs, oldest-is_filed rs x e)
]

pub oldest_of_none : (rs : List UsageRecord) → oldest rs ≡ none → length rs ≡ 0
unfolding oldest
oldest_of_none [] h = refl
oldest_of_none (r ∷ rs) h = ground arith

evict_loop_bound :
    (fuel : ℕ) (rs : List UsageRecord)
    → length rs ≤ fuel + max_records
    → length (evict_loop fuel rs) ≤ max_records
unfolding evict_loop
evict_loop_bound zero rs h = h
evict_loop_bound (suc fuel) rs h = elim (Option-cases (oldest rs)) [
  | inl e ↦ rw e (ground (arith, oldest_of_none rs e))
  | inr (x, e) ↦ rw e (
      ground (
        arith,
        length-remove x.key rs (oldest-is_filed rs x e),
        evict_loop_bound fuel (remove x.key rs),
      ))
]

evict_bound : (rs : List UsageRecord) → length (evict rs) ≤ max_records
unfolding evict
evict_bound rs = evict_loop_bound (length rs) rs (omega arith)

-- A table with room is left as it is.
evict_of_room : (rs : List UsageRecord) → length rs ≤ max_records → evict rs ≡ rs
unfolding evict evict_loop
evict_of_room [] h = refl
evict_of_room (r ∷ rs) h = ground arith

length-keep : (p : UsageRecord → Bool) (rs : List UsageRecord) → length (keep p rs) ≤ length rs
unfolding keep
length-keep p [] = omega arith
length-keep p (r ∷ rs) = ground (arith, length-keep p rs)

pub length-from_records : (rs : List UsageRecord) → length (from_records rs).records ≤ max_records
unfolding from_records
length-from_records rs = evict_bound (collect [] rs)

pub length-record_use :
    (t : UsageTable) (k : ItemKey) (now : ℤ) → length (record_use t k now).records ≤ max_records
unfolding record_use
length-record_use t k now = evict_bound (insert (used_once_more k now (get k t.records)) t.records)

pub length-prune :
    (items : List ItemSummary) (t : UsageTable)
    → length t.records ≤ max_records
    → length (prune items t).records ≤ max_records
unfolding prune
length-prune items t h = omega (arith, length-keep (λ r. is_live items r.key) t.records)
