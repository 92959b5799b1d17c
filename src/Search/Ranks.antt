-- ===== src/Search/Ranks.antt =====
-- src/core/search.rs: what the order of the rows means, apart from the comparison that computes it.
use cosmic_pass.Base.{
  ℕ, ◌+◌, ◌<◌, ◌≤◌, ◌≡◌, refl, Ordering, false, Option, none, some, List, [], ◌∷◌, is_gt, then_with,
  compare, ap, ◌⊎◌, inl, inr, arith, sym,
}
use cosmic_pass.Base.Int.{ℤ, eq_of_parts, pos_part, neg_part}
use cosmic_pass.Base.Sorting.{IsSorted}
use cosmic_pass.Domain.Items.{ItemKey, ItemSummary, compare_text}
use cosmic_pass.Search.Index.{
  ResultRow, SearchIndex, compare_option, compare_rows, recency_of, sort_title_of,
}

-- A use that is later than another; any use is later than none.
abbrev pub UsedLater : Option ℤ → Option ℤ → Type 0
UsedLater none b = ⊥
UsedLater (some a) none = Unit
UsedLater (some a) (some b) = pos_part b + neg_part a < pos_part a + neg_part b

module _ (index : SearchIndex) (recency : ItemKey → Option ℤ) (items : List ItemSummary) where
  -- A row stands before another if it has the higher score; or the same score and the later use; or also
  -- the same use and the title that comes first; or also the same title, and is not behind it.
  pub data Precedes (a b : ResultRow) : Type 0 where
    by_score : b.score < a.score → Precedes a b
    by_use :
        a.score ≡ b.score
        → UsedLater (recency_of recency items a) (recency_of recency items b)
        → Precedes a b
    by_title :
        a.score ≡ b.score
        → recency_of recency items a ≡ recency_of recency items b
        → compare_text (sort_title_of index a) (sort_title_of index b) ≡ Ordering.lt
        → Precedes a b
    by_position :
        a.score ≡ b.score
        → recency_of recency items a ≡ recency_of recency items b
        → compare_text (sort_title_of index a) (sort_title_of index b) ≡ Ordering.eq
        → a.item ≤ b.item
        → Precedes a b

  -- Each row stands before the next one.
  abbrev pub IsRanked : List ResultRow → Type 0
  IsRanked [] = Unit {0}
  IsRanked (a ∷ []) = Unit {0}
  IsRanked (a ∷ b ∷ rows) = Precedes a b × IsRanked (b ∷ rows)

then_with_cases :
    (o p : Ordering)
    → is_gt (then_with o p) ≡ false
    → (o ≡ Ordering.lt) ⊎ ((o ≡ Ordering.eq) × (is_gt p ≡ false))
then_with_cases Ordering.lt p h = inl refl
then_with_cases Ordering.eq p h = inr (refl, h)
then_with_cases Ordering.gt p h = absurd (cc h)

compare_lt : (a b : ℕ) → compare a b ≡ Ordering.lt → a < b
compare_lt a b h = ground arith

compare_eq : (a b : ℕ) → compare a b ≡ Ordering.eq → a ≡ b
compare_eq a b h = ground arith

compare_le : (a b : ℕ) → is_gt (compare a b) ≡ false → a ≤ b
compare_le a b h = ground arith

compare_option-lt : (a b : Option ℤ) → compare_option b a ≡ Ordering.lt → UsedLater a b
compare_option-lt none none h = absurd (cc h)
compare_option-lt none (some b) h = absurd (cc h)
compare_option-lt (some a) none h = tt
compare_option-lt (some a) (some b) h = compare_lt _ _ h

compare_option-eq : (a b : Option ℤ) → compare_option b a ≡ Ordering.eq → a ≡ b
compare_option-eq none none h = refl
compare_option-eq none (some b) h = absurd (cc h)
compare_option-eq (some a) none h = absurd (cc h)
compare_option-eq (some a) (some b) h = ap some (sym (eq_of_parts b a (compare_eq _ _ h)))

module _ (index : SearchIndex) (recency : ItemKey → Option ℤ) (items : List ItemSummary) where
  -- Rows that the comparison does not put the other way round are in this order.
  compare_rows-Precedes :
      (a b : ResultRow)
      → is_gt (compare_rows index recency items a b) ≡ false
      → Precedes index recency items a b
  unfolding compare_rows
  compare_rows-Precedes a b h =
      let use_a = recency_of recency items a in
      let use_b = recency_of recency items b in
      elim (then_with_cases (compare b.score a.score) _ h) [
        | inl s ↦ by_score (compare_lt b.score a.score s)
        | inr (s, t) ↦ elim (then_with_cases (compare_option use_b use_a) _ t) [
          | inl l ↦ by_use (sym (compare_eq b.score a.score s)) (compare_option-lt use_a use_b l)
          | inr (l, w) ↦
              elim (then_with_cases (compare_text (sort_title_of index a) (sort_title_of index b)) _
                w) [
                  | inl n ↦
                      by_title (sym (compare_eq b.score a.score s))
                        (compare_option-eq use_a use_b l) n
                  | inr (n, p) ↦
                      by_position (sym (compare_eq b.score a.score s))
                        (compare_option-eq use_a use_b l) n (compare_le a.item b.item p)
                ]
        ]
      ]

  pub IsSorted-IsRanked :
      (rows : List ResultRow)
      → IsSorted (compare_rows index recency items) rows
      → IsRanked index recency items rows
  IsSorted-IsRanked [] h = tt
  IsSorted-IsRanked (a ∷ []) h = tt
  IsSorted-IsRanked (a ∷ b ∷ rows) h =
      (compare_rows-Precedes a b h.0, IsSorted-IsRanked (b ∷ rows) h.1)
