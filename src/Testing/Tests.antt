-- ===== src/Testing/Tests.antt =====
-- src/testing.rs: a login is copied, from the start of the program on.
use cosmic_pass.Base.{false, ◌≡◌, refl, Bool, true, false, some, List, [], ◌∷◌, is_some}
use cosmic_pass.Config.Defaults.{default_prefs}
use cosmic_pass.Fixtures.{plain_case, containment, key, login}
use cosmic_pass.State.Types.{Msg, Token}
use cosmic_pass.Testing.Registered.{last_in_items, answer_of, get_field-with_items}
use cosmic_pass.Testing.{get_field, BackendState, with_items, set_field}
use cosmic_pass.Testing.Harness.{Harness, with_prefs, send_no_wait, join, result_ids}
use cosmic_pass.Testing.Runs.{Move, sent, joined, run, IsFaithful, run-IsFaithful}
use cosmic_pass.State.Update.{update}
use cosmic_pass.Base.{decide, string_discrete, any, get_elem?}
use cosmic_pass.Search.Index.{search_rows, build}
use cosmic_pass.Usage.Table.{recency, prune, record_use}
use cosmic_pass.Base.Text.{is_whitespace}
use cosmic_pass.Actions.Rows.{all_actions, source_discrete, primary_action}
use cosmic_pass.Domain.Items.{key_discrete, field_discrete}
use cosmic_pass.State.Types.{new_model}
use cosmic_pass.State.View.{
  show, hide, request_refresh, move_selection, replace_items, cancel_pending, leave_mode,
}
use cosmic_pass.State.Session.{session_probed, data_loaded, startup, version_probed}
use cosmic_pass.State.Copy.{copy_with, copy_fetched, copy_finished, activate_action}

unfoldable github : BackendState
unfolding with_items
github = set_field (key "a") "password" "hunter2" (with_items (login "a" "GitHub" ∷ []))

abbrev never : Token → Bool
never t = false

-- The program starts, and its tasks end.
abbrev opening : List Move
opening = sent Msg.startup ∷ joined never 1 ∷ joined never 0 ∷ joined never 0 ∷ []

-- The password is asked for, fetched and copied.
abbrev asking : List Move
asking = sent Msg.copy_primary ∷ joined never 0 ∷ joined never 0 ∷ []

abbrev opened : Harness
opened = run plain_case containment (with_prefs github default_prefs) opening

harness : Unit {0}
unfolding run github join send_no_wait with_prefs result_ids update new_model default_prefs
    containment search_rows show hide request_refresh move_selection replace_items cancel_pending
    leave_mode data_loaded decide string_discrete copy_with copy_fetched copy_finished
    activate_action build recency prune is_whitespace key_discrete all_actions field_discrete
    session_probed source_discrete startup version_probed primary_action get_elem? any record_use
harness = tt

ids_stand : result_ids opened ≡ some ("a" ∷ [])
unfolding harness
ids_stand = refl

copies_password :
    (run plain_case containment opened asking).clipboard.copies ≡ ("hunter2", true, 90) ∷ []
unfolding harness
copies_password = refl

run-IsFaithful_example :
    IsFaithful (run plain_case containment (with_prefs github default_prefs) opening)
    × (is_some (result_ids (run plain_case containment (with_prefs github default_prefs) opening))
        ≡ true)
run-IsFaithful_example = run-IsFaithful plain_case containment github default_prefs opening

get_field-with_items_example :
    (get_field (with_items (login "a" "GitHub" ∷ [])) false (key "a") "username").0
    ≡ answer_of (last_in_items (key "a") "username" (login "a" "GitHub" ∷ []))
get_field-with_items_example = get_field-with_items (login "a" "GitHub" ∷ []) (key "a") "username"
