-- ===== src/Actions/Tests.antt =====
-- The action list of a sample item, and its theorems at it.
use cosmic_pass.Base.{◌≡◌, refl, some, [], ◌∷◌, true, get_elem?, map, decide, string_discrete}
use cosmic_pass.Domain.Items.{ItemSummary, plain_field, field_discrete}
use cosmic_pass.Actions.Rows.{field_source, totp_source, all_actions, source_discrete}
use cosmic_pass.Actions.Complete.{has_source, all_actions_fields, all_actions_codes}
use cosmic_pass.Fixtures.{login}

abbrev git_hub : ItemSummary
git_hub = login "a" "GitHub"

-- The password comes first, then the fields in order and the one-time code.
labels : map (λ e. e.label) (all_actions git_hub) ≡ "Password" ∷ "Username" ∷ "One-time code" ∷ []
unfolding all_actions decide string_discrete field_discrete source_discrete
labels = refl

first_field : get_elem? git_hub.fields 0 ≡ some (plain_field "username" "Username" "octo")
unfolding get_elem?
first_field = refl

first_code : get_elem? git_hub.totp_fields 0 ≡ some "totp_uri"
unfolding get_elem?
first_code = refl

all_actions_fields_example :
    has_source (field_source (plain_field "username" "Username" "octo")) (all_actions git_hub)
    ≡ true
all_actions_fields_example =
    all_actions_fields git_hub 0 (plain_field "username" "Username" "octo") first_field

all_actions_codes_example : has_source (totp_source "totp_uri") (all_actions git_hub) ≡ true
all_actions_codes_example = all_actions_codes git_hub 0 "totp_uri" first_code
