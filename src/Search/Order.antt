-- ===== src/Search/Order.antt =====
-- src/core/search.rs: the order of the rows that a search returns.
use cosmic_pass.Base.{
  ℕ, String, true, false, Option, none, some, List, ◌≡◌, refl, is_gt, take, sort_by,
}
use cosmic_pass.Base.Int.{ℤ}
use cosmic_pass.Base.Orders.{
  swapped, compare_swap, compare_ℤ_swap, then_with-swapped, swapped_is_after,
}
use cosmic_pass.Base.TextOrder.{compare_text_swap}
use cosmic_pass.Base.Sorting.{sort_by-perm, sort_by-IsSorted}
use cosmic_pass.Search.Ranks.{IsRanked, IsSorted-IsRanked}
use cosmic_pass.Domain.Items.{ItemKey, ItemSummary}
use cosmic_pass.Search.Index.{
  Matcher, ResultRow, SearchIndex, compare_option, compare_rows, recency_of, sort_title_of,
  candidates, search_rows,
}
use mathlib.Core.List.{Perm}

compare_option_swap : (a b : Option ℤ) → compare_option b a ≡ swapped (compare_option a b)
compare_option_swap none none = refl
compare_option_swap none (some b) = refl
compare_option_swap (some a) none = refl
compare_option_swap (some a) (some b) = compare_ℤ_swap a b

module _ (index : SearchIndex) (recency : ItemKey → Option ℤ) (items : List ItemSummary) where
  compare_rows_swap :
      (a b : ResultRow)
      → compare_rows index recency items b a ≡ swapped (compare_rows index recency items a b)
  unfolding compare_rows
  compare_rows_swap a b =
      rw
        (
          compare_swap b.score a.score,
          compare_option_swap (recency_of recency items b) (recency_of recency items a),
          compare_text_swap (sort_title_of index a) (sort_title_of index b),
          compare_swap a.item b.item,
          then_with-swapped,
          then_with-swapped,
          then_with-swapped,
        )
        refl

  compare_rows_flips :
      (a b : ResultRow)
      → is_gt (compare_rows index recency items a b) ≡ true
      → is_gt (compare_rows index recency items b a) ≡ false
  compare_rows_flips a b h =
      rw (compare_rows_swap a b) (swapped_is_after (compare_rows index recency items a b) h)

  -- The rows of a search are the first ones of its candidates in their order, in which each row has a
  -- higher score than the next; or the same score and a later use; or also the same use and a title
  -- that comes first; or also the same title, and its item does not stand behind the other's.
  pub search_rows-IsRanked :
      (mt : Matcher) (query : String) (most : ℕ)
      → (rows : List ResultRow) × Perm rows (candidates mt (mt.atoms query) index)
        × IsRanked index recency items rows
        × (search_rows mt index query recency items most ≡ take most rows)
  unfolding search_rows
  search_rows-IsRanked mt query most =
      let cmp = compare_rows index recency items in
      let found = candidates mt (mt.atoms query) index in
      (
        sort_by cmp found,
        sort_by-perm cmp found,
        IsSorted-IsRanked index recency items (sort_by cmp found)
            (sort_by-IsSorted cmp compare_rows_flips found),
        refl,
      )
