-- ===== src/State/Tests.antt =====
-- Runs of the reducer on sample data, and its theorems at them.
use cosmic_pass.Base.{true, ◌+◌, ◌≡◌, refl, some, List, [], ◌∷◌}
use cosmic_pass.Base.Int.{ℤ, pos}
use cosmic_pass.Config.Defaults.{default_prefs}
use cosmic_pass.Pass.Error.{ok}
use cosmic_pass.State.Types.{Model, Msg, new_model}
use cosmic_pass.State.Query.{revealed_value}
use cosmic_pass.State.Update.{run, update}
use cosmic_pass.State.Refresh.{update_balance}
use cosmic_pass.State.Refresh.Parts.{refreshes, in_flight, unanswered}
use cosmic_pass.State.Clipboard.{copies-update, allowed}
use cosmic_pass.State.Clipboard.Parts.{copies}
use cosmic_pass.State.Invariant.Accounts.Basics.{IsAccounted}
use cosmic_pass.State.Invariant.Accounts.Kept.{run-IsAccounted}
use cosmic_pass.State.Invariant.Rows.Parts.{IsIndexed}
use cosmic_pass.State.Invariant.Reveal.Parts.{IsMasked}
use cosmic_pass.State.Invariant.Runs.{run-IsIndexed, run-IsMasked}
use cosmic_pass.Fixtures.{plain_case, containment, key, two_logins}
use cosmic_pass.Base.{decide, string_discrete}
use cosmic_pass.Search.Index.{search_rows, build}
use cosmic_pass.Usage.Table.{recency, prune}
use cosmic_pass.Base.Text.{is_whitespace}
use cosmic_pass.Actions.Rows.{all_actions, source_discrete}
use cosmic_pass.Domain.Items.{key_discrete, field_discrete}
use cosmic_pass.State.View.{
  show, hide, request_refresh, move_selection, replace_items, cancel_pending, leave_mode,
}
use cosmic_pass.State.Session.{session_probed, data_loaded}
use cosmic_pass.State.Copy.{copy_with, copy_fetched, copy_finished, activate_action}
use cosmic_pass.State.Reveal.{toggle_reveal, reveal_fetched, totp_fetched, tick}

-- Items arrive, the second one's fields are opened, and its password is revealed.
abbrev pub revealing : List (Msg × ℤ)
revealing =
    (Msg.data_loaded two_logins, pos 1000)
    ∷ (Msg.select_next, pos 1000)
    ∷ (Msg.open_actions, pos 1000)
    ∷ (Msg.toggle_reveal, pos 1001)
    ∷ (Msg.reveal_fetched (key "a") 1 1 (ok "hunter2"), pos 1002)
    ∷ []

abbrev pub start : Model
start = new_model default_prefs

reducer : Unit {0}
unfolding run new_model default_prefs containment search_rows show hide request_refresh
    move_selection replace_items cancel_pending leave_mode data_loaded toggle_reveal reveal_fetched
    revealed_value decide string_discrete copy_with copy_fetched copy_finished tick totp_fetched
    activate_action build recency prune is_whitespace key_discrete all_actions field_discrete
    session_probed source_discrete
reducer = tt

revealing_shows : revealed_value (run plain_case containment start revealing) 1 ≡ some "hunter2"
unfolding reducer
revealing_shows = refl

run-IsIndexed_example : IsIndexed (run plain_case containment (new_model default_prefs) revealing)
run-IsIndexed_example = run-IsIndexed plain_case containment default_prefs revealing

run-IsMasked_example : IsMasked (run plain_case containment (new_model default_prefs) revealing)
run-IsMasked_example = run-IsMasked plain_case containment default_prefs revealing

-- A signed-in account, its items, and the first one's password asked for.
abbrev asking : List (Msg × ℤ)
asking =
    (Msg.session_probed (ok "me@example.org"), pos 1000)
    ∷ (Msg.data_loaded two_logins, pos 1001)
    ∷ (Msg.copy_primary, pos 1002)
    ∷ []

abbrev asked : Model
asked = run plain_case containment start asking

abbrev answer : Msg
answer = Msg.copy_fetched (key "b") (ok "hunter2")

answer_is_copied :
    copies (update plain_case containment asked answer (pos 1003)).1 ≡ ("hunter2", true) ∷ []
unfolding reducer
answer_is_copied = refl

copies-update_example :
    copies (update plain_case containment asked answer (pos 1003)).1 ≡ allowed asked answer
copies-update_example = copies-update plain_case containment asked answer (pos 1003)

update_balance_example :
    in_flight (update plain_case containment asked Msg.refresh_requested (pos 1003)).0
    ≡ unanswered Msg.refresh_requested (in_flight asked)
      + refreshes (update plain_case containment asked Msg.refresh_requested (pos 1003)).1
update_balance_example =
    update_balance plain_case containment asked Msg.refresh_requested (pos 1003)

run-IsAccounted_example : IsAccounted (run plain_case containment (new_model default_prefs) asking)
run-IsAccounted_example = run-IsAccounted plain_case containment default_prefs asking

-- A refresh asked for under one account is in flight when the session is found to be another's: no
-- new one is asked for, and its listing then stays as the other account's.
switch_asks_for_nothing :
    refreshes
      (update plain_case containment
        (run plain_case containment start
          ((Msg.session_probed (ok "first@example.org"), pos 1000) ∷ []))
        (Msg.session_probed (ok "second@example.org"))
        (pos 1001)).1
    ≡ 0
unfolding reducer
switch_asks_for_nothing = refl

late_listing_changes_hands :
    (run plain_case containment start (
      (Msg.session_probed (ok "first@example.org"), pos 1000)
      ∷ (Msg.session_probed (ok "second@example.org"), pos 1001)
      ∷ (Msg.data_loaded two_logins, pos 1002)
      ∷ [])).data_account
    ≡ some "second@example.org"
unfolding reducer
late_listing_changes_hands = refl
