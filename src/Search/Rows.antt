-- ===== src/Search/Rows.antt =====
-- src/core/search.rs: which rows a search returns.
use cosmic_pass.Base.{
  ℕ, suc, ◌+◌, ◌≤◌, ◌≡◌, refl, String, Bool, true, Option, List, [], ◌∷◌, arith, ltb, length, all,
  length-take, lt→ltb,
}
use cosmic_pass.Base.Int.{ℤ}
use cosmic_pass.Base.Unicode.{Unicode}
use cosmic_pass.Base.Sorting.{all-take, all-sort_by}
use cosmic_pass.Domain.Items.{ItemKey, ItemSummary}
use cosmic_pass.Search.Index.{
  Matcher, ResultRow, SearchIndex, build, score_entry, all_rows, matching_rows, candidates,
  compare_rows, search_rows,
}

-- Whether every row is the row of one of `n` items.
unfoldable pub rows_within : ℕ → List ResultRow → Bool
unfolding all
rows_within n rows = all (λ row. ltb row.item n) rows

pub length-build : (u : Unicode) (items : List ItemSummary) → length (build u items) ≡ length items
unfolding build
length-build u [] = refl
length-build u (i ∷ items) = omega (arith, length-build u items)

module _ (mt : Matcher) where
  all_rows_within :
      (i : ℕ) (es : SearchIndex) (n : ℕ)
      → i + length es ≤ n
      → rows_within n (all_rows mt i es) ≡ true
  unfolding rows_within all_rows
  all_rows_within i [] n h = refl
  all_rows_within i (e ∷ es) n h =
      ground (arith, all_rows_within (suc i) es n (omega arith), lt→ltb i n (omega arith))

  matching_rows_within :
      (atoms : List mt.Atom) (i : ℕ) (es : SearchIndex) (n : ℕ)
      → i + length es ≤ n
      → rows_within n (matching_rows mt atoms i es) ≡ true
  unfolding rows_within matching_rows score_entry
  matching_rows_within atoms i [] n h = refl
  matching_rows_within atoms i (e ∷ es) n h =
      ground
        (arith, matching_rows_within atoms (suc i) es n (omega arith), lt→ltb i n (omega arith))

  candidates_within :
      (atoms : List mt.Atom) (es : SearchIndex)
      → rows_within (length es) (candidates mt atoms es) ≡ true
  unfolding candidates
  candidates_within [] es = all_rows_within 0 es (length es) (omega arith)
  candidates_within (a ∷ atoms) es = matching_rows_within (a ∷ atoms) 0 es (length es) (omega arith)

  pub search_rows_within :
      (index : SearchIndex) (query : String) (recency : ItemKey → Option ℤ)
      (items : List ItemSummary) (most : ℕ)
      → rows_within (length index) (search_rows mt index query recency items most) ≡ true
  unfolding search_rows rows_within
  search_rows_within index query recency items most =
      all-take (λ row. ltb row.item (length index)) most _
        (all-sort_by (compare_rows index recency items) (λ row. ltb row.item (length index))
          (candidates mt (mt.atoms query) index) (candidates_within (mt.atoms query) index))

  pub length-search_rows :
      (index : SearchIndex) (query : String) (recency : ItemKey → Option ℤ)
      (items : List ItemSummary) (most : ℕ)
      → length (search_rows mt index query recency items most) ≤ most
  unfolding search_rows
  length-search_rows index query recency items most = length-take most _
