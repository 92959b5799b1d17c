-- ===== src/Usage/Evicted.antt =====
-- src/core/usage.rs: the eviction loop ends, and how many records it leaves.
use cosmic_pass.Base.{
  ℕ, zero, suc, ◌≤◌, ◌≡◌, refl, sym, ◌∙◌, true, false, some, List, [], ◌∷◌, arith, min, length, ltb,
  Option-cases, Bool-cases, inl, inr,
}
use cosmic_pass.Domain.Items.{UsageRecord}
use cosmic_pass.Usage.Table.{max_records, oldest, remove, evict_loop, evict}
use cosmic_pass.Usage.Capacity.{length-remove, oldest-is_filed, oldest_of_none}

-- A table within the bound is left as it is, whatever the fuel.
evict_loop_of_room :
    (fuel : ℕ) (rs : List UsageRecord)
    → ltb max_records (length rs) ≡ false
    → evict_loop fuel rs ≡ rs
unfolding evict_loop
evict_loop_of_room zero rs h = refl
evict_loop_of_room (suc fuel) rs h = rw h refl

-- A round of a table over the bound removes the oldest record, and one record only.
evict_round :
    (rs : List UsageRecord)
    → ltb max_records (length rs) ≡ true
    → (r : UsageRecord) × (oldest rs ≡ some r) × (suc (length (remove r.key rs)) ≡ length rs)
evict_round rs h = elim (Option-cases (oldest rs)) [
  | inl e ↦ absurd (ground (arith, oldest_of_none rs e))
  | inr (r, e) ↦ (r, e, length-remove r.key rs (oldest-is_filed rs r e))
]

evict_loop_step :
    (fuel : ℕ) (rs : List UsageRecord) (r : UsageRecord)
    → ltb max_records (length rs) ≡ true
    → oldest rs ≡ some r
    → evict_loop (suc fuel) rs ≡ evict_loop fuel (remove r.key rs)
unfolding evict_loop
evict_loop_step fuel rs r h e = rw (h, e) refl

evict_loop_same :
    (fuel more : ℕ) (rs : List UsageRecord)
    → length rs ≤ fuel
    → length rs ≤ more
    → evict_loop fuel rs ≡ evict_loop more rs
evict_loop_same zero more [] h k =
    evict_loop_of_room zero [] refl ∙ sym (evict_loop_of_room more [] refl)
evict_loop_same zero more (r ∷ rs) h k = absurd (omega arith)
evict_loop_same (suc fuel) zero [] h k =
    evict_loop_of_room (suc fuel) [] refl ∙ sym (evict_loop_of_room zero [] refl)
evict_loop_same (suc fuel) zero (r ∷ rs) h k = absurd (omega arith)
evict_loop_same (suc fuel) (suc more) rs h k = elim (Bool-cases (ltb max_records (length rs))) [
  | inr e ↦ evict_loop_of_room (suc fuel) rs e ∙ sym (evict_loop_of_room (suc more) rs e)
  | inl e ↦
      let (r, found, shorter) = evict_round rs e in
      evict_loop_step fuel rs r e found
      ∙ evict_loop_same fuel more (remove r.key rs) (omega arith) (omega arith)
      ∙ sym (evict_loop_step more rs r e found)
]

length-evict_loop :
    (fuel : ℕ) (rs : List UsageRecord)
    → length rs ≤ fuel
    → length (evict_loop fuel rs) ≡ min (length rs) max_records
length-evict_loop zero [] h = rw (evict_loop_of_room zero [] refl) refl
length-evict_loop zero (r ∷ rs) h = absurd (omega arith)
length-evict_loop (suc fuel) rs h = elim (Bool-cases (ltb max_records (length rs))) [
  | inr e ↦ rw (evict_loop_of_room (suc fuel) rs e) (ground arith)
  | inl e ↦
      let (r, found, shorter) = evict_round rs e in
      rw (evict_loop_step fuel rs r e found)
        (ground (arith, length-evict_loop fuel (remove r.key rs)))
]

-- The eviction loop ends: with a round for each record it leaves the 200 records that the bound
-- allows, or all of them if there are fewer, and further rounds change nothing.
pub evict_loop_ends :
    (fuel : ℕ) (rs : List UsageRecord)
    → length rs ≤ fuel
    → (evict_loop fuel rs ≡ evict rs) × (length (evict_loop fuel rs) ≡ min (length rs) max_records)
unfolding evict
evict_loop_ends fuel rs h =
    (evict_loop_same fuel (length rs) rs h (omega arith), length-evict_loop fuel rs h)
