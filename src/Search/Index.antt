-- ===== src/Search/Index.antt =====
-- src/core/search.rs: the index, the score of an entry, and the ranked rows. The fuzzy matcher is
-- a package that the program calls: its patterns and scores are a parameter.
use cosmic_pass.Base.{
  ℕ, suc, ◌+◌, ◌*◌, ◌%◌, ◌^◌, String, Option, some, none, List, [], ◌∷◌, ◌++◌, if◌then◌else◌, ◌==◌,
  max, compare, Ordering, then_with, and_then, unwrap_or, get_elem?, take, sort_by,
}
use cosmic_pass.Base.Int.{ℤ, compare_ℤ}
use cosmic_pass.Base.Unicode.{Unicode}
use cosmic_pass.Base.Text.{codes, chars, from_chars, strip_prefix}
use cosmic_pass.Domain.Items.{ItemKey, ItemSummary, display_title, compare_text}
use Prim.Native.Char.{Char, code}

-- `nucleo_matcher`: the atoms of a query (`Pattern::new`), and an atom's score in a text, with the
-- positions that it matched (`Atom::indices`) or without (`Atom::score`). Scores are `u16`.
pub record Matcher : Type 1 where
  pub Atom : Type 0
  pub atoms : String → List Atom
  pub indices : Atom → String → Option (ℕ × List ℕ)
  pub score : Atom → String → Option ℕ

-- One search hit: a position in the item list, its score and the matched title characters.
pub record ResultRow : Type 0 where
  pub item : ℕ
  pub score : ℕ
  pub title_indices : List ℕ

pub record Entry : Type 0 where
  pub title : String
  pub others : List String
  pub sort_title : String

abbrev pub SearchIndex : Type 0
SearchIndex = List Entry

-- What follows the first `://`, or the whole text.
unfoldable pub after_scheme : List Char → Option (List Char)
unfolding strip_prefix
after_scheme [] = none
after_scheme (c ∷ cs) =
    let rest = after_scheme cs in
    elim (strip_prefix (codes "://") (c ∷ cs)) [ none ↦ rest | some r ↦ some r ]

-- The text up to the first `/`, `?` or `#`.
unfoldable pub before_path : List Char → List Char
before_path [] = []
before_path (c ∷ cs) =
    let rest = before_path cs in
    if code c == b'/'
    then []
    else if code c == b'?'
    then []
    else if code c == b'#'
    then []
    else c ∷ rest

-- What follows the last `@`, `none` where there is none.
unfoldable pub after_at : List Char → Option (List Char)
after_at [] = none
after_at (c ∷ cs) = elim (after_at cs) [
  | some r ↦ some r
  | none ↦ if code c == b'@' then some cs else none
]

-- The host of a URL, without scheme, user and path.
unfoldable pub url_host : String → Option String
unfolding after_scheme before_path after_at
url_host url =
    let host = before_path (unwrap_or (after_scheme (chars url)) (chars url)) in
    elim (unwrap_or (after_at host) host) [ [] ↦ none | c ∷ cs ↦ some (from_chars (c ∷ cs)) ]

abbrev pub option_list : Option String → List String
option_list none = []
option_list (some s) = s ∷ []

abbrev pub hosts : List String → List String
hosts [] = []
hosts (u ∷ us) = option_list (url_host u) ++ hosts us

unfoldable pub index_entry : Unicode → ItemSummary → Entry
unfolding url_host display_title
index_entry u item = record {
  title = item.title;
  others =
      option_list item.username
      ++ (option_list item.email ++ (hosts item.urls ++ item.vault_name ∷ []));
  sort_title = u.to_lowercase (display_title item);
}

-- `SearchIndex::build`.
unfoldable pub build : Unicode → List ItemSummary → SearchIndex
unfolding index_entry
build u [] = []
build u (item ∷ items) = index_entry u item ∷ build u items

-- The derived order of an optional number: `none` is the least.
abbrev pub compare_option : Option ℤ → Option ℤ → Ordering
compare_option none none = Ordering.eq
compare_option none (some b) = Ordering.lt
compare_option (some a) none = Ordering.gt
compare_option (some a) (some b) = compare_ℤ a b

abbrev pub max_option : Option ℕ → Option ℕ → Option ℕ
max_option none b = b
max_option (some a) none = some a
max_option (some a) (some b) = some (max a b)

-- `sort_unstable` and `dedup` of positions.
abbrev dedup_after : ℕ → List ℕ → List ℕ
dedup_after m [] = []
dedup_after m (n ∷ ns) = let rest = dedup_after n ns in if m == n then rest else n ∷ rest

unfoldable pub sorted_positions : List ℕ → List ℕ
unfolding sort_by
sorted_positions ns = elim (sort_by compare ns) [ [] ↦ [] | m ∷ ms ↦ m ∷ dedup_after m ms ]

-- Title matches count double.
abbrev title_weight : ℕ
title_weight = 2

module _ (mt : Matcher) where
  open mt use {Atom}

  -- The best score of an atom among the other fields.
  unfoldable pub best_other : Atom → List String → Option ℕ
  best_other atom [] = none
  best_other atom (h ∷ hs) = max_option (mt.score atom h) (best_other atom hs)

  abbrev pub title_score : Option (ℕ × List ℕ) → Option ℕ
  title_score none = none
  title_score (some (s, positions)) = some (s * title_weight)

  abbrev pub title_positions : Option (ℕ × List ℕ) → List ℕ
  title_positions none = []
  title_positions (some (s, positions)) = positions

  -- The loop over the atoms: an atom that no field matches rejects the entry. The total is a `u32`.
  unfoldable pub score_loop : List Atom → Entry → ℕ → List ℕ → Option (ℕ × List ℕ)
  unfolding best_other
  score_loop [] entry total positions = some (total, positions)
  score_loop (atom ∷ atoms) entry total positions =
      let title = mt.indices atom entry.title in
      elim (max_option (title_score title) (best_other atom entry.others)) [
        | none ↦ none
        | some best ↦
            score_loop atoms entry ((total + best) % 2 ^ 32) (positions ++ title_positions title)
      ]

  unfoldable pub score_entry : List Atom → Entry → ℕ → Option ResultRow
  unfolding score_loop sorted_positions
  score_entry atoms entry item = elim (score_loop atoms entry 0 []) [
    | none ↦ none
    | some (total, positions) ↦
        some (record { item = item; score = total; title_indices = sorted_positions positions })
  ]

  -- The rows of an empty query: every entry, from position `item` on.
  unfoldable pub all_rows : ℕ → SearchIndex → List ResultRow
  all_rows item [] = []
  all_rows item (e ∷ es) =
      record { item = item; score = 0; title_indices = [] } ∷ all_rows (suc item) es

  -- The rows of the entries that match.
  unfoldable pub matching_rows : List Atom → ℕ → SearchIndex → List ResultRow
  unfolding score_entry
  matching_rows atoms item [] = []
  matching_rows atoms item (e ∷ es) =
      let rest = matching_rows atoms (suc item) es in
      elim (score_entry atoms e item) [ none ↦ rest | some row ↦ row ∷ rest ]

  unfoldable pub candidates : List Atom → SearchIndex → List ResultRow
  unfolding all_rows matching_rows
  candidates [] index = all_rows 0 index
  candidates (atom ∷ atoms) index = matching_rows (atom ∷ atoms) 0 index

-- When the item of a row was last used.
unfoldable pub recency_of : (ItemKey → Option ℤ) → List ItemSummary → ResultRow → Option ℤ
unfolding get_elem?
recency_of recency items row = and_then (get_elem? items row.item) (λ i. recency i.key)

abbrev entry_title : Option Entry → String
entry_title none = ""
entry_title (some e) = e.sort_title

-- The title by which a row is sorted. Indexing past the entries, which would panic, gives "".
unfoldable pub sort_title_of : SearchIndex → ResultRow → String
unfolding get_elem?
sort_title_of index row = entry_title (get_elem? index row.item)

-- The order of the rows: score, recency, title, position.
unfoldable pub compare_rows :
    SearchIndex → (ItemKey → Option ℤ) → List ItemSummary → ResultRow → ResultRow → Ordering
unfolding recency_of sort_title_of
compare_rows index recency items a b = then_with (compare b.score a.score) (
    then_with (compare_option (recency_of recency items b) (recency_of recency items a)) (
      then_with (compare_text (sort_title_of index a) (sort_title_of index b))
        (compare a.item b.item)))

-- `SearchIndex::search`: up to `max` rows.
unfoldable pub search_rows :
    Matcher → SearchIndex → String → (ItemKey → Option ℤ) → List ItemSummary → ℕ → List ResultRow
unfolding candidates compare_rows sort_by take
search_rows mt index query recency items most =
    take most (sort_by (compare_rows index recency items) (candidates mt (mt.atoms query) index))
