-- ===== src/Search/Tests.antt =====
-- A search of sample items, and the order theorem at it.
use cosmic_pass.Base.{◌≡◌, refl, Option, none, List, [], ◌∷◌, take, map}
use cosmic_pass.Base.Int.{ℤ}
use cosmic_pass.Base.Text.{is_whitespace}
use cosmic_pass.Domain.Items.{ItemKey}
use cosmic_pass.Search.Index.{ResultRow, SearchIndex, build, candidates, search_rows}
use cosmic_pass.Search.Ranks.{IsRanked}
use cosmic_pass.Search.Order.{search_rows-IsRanked}
use cosmic_pass.Fixtures.{plain_case, containment, two_logins}
use mathlib.Core.List.{Perm}

abbrev index : SearchIndex
unfolding build
index = build plain_case two_logins.items

abbrev never : ItemKey → Option ℤ
never k = none

-- With equal scores and no use recorded the title decides.
by_title :
    map (λ r. r.item) (search_rows containment index "" never two_logins.items 5) ≡ 1 ∷ 0 ∷ []
unfolding search_rows containment build is_whitespace
by_title = refl

search_rows-IsRanked_example :
    (rows : List ResultRow) × Perm rows (candidates containment (containment.atoms "git") index)
    × IsRanked index never two_logins.items rows
    × (search_rows containment index "git" never two_logins.items 1 ≡ take 1 rows)
search_rows-IsRanked_example = search_rows-IsRanked index never two_logins.items containment "git" 1
