-- ===== src/View/Tests.antt =====
-- src/app/view: a title with a match, and a list of two items.
use cosmic_pass.Base.{
  some, List, length, get_elem?, arith, ◌≡◌, refl, true, false, none, [], ◌∷◌, all,
}
use cosmic_pass.Base.Int.{ℤ, pos}
use cosmic_pass.Base.Text.{chars, is_whitespace}
use cosmic_pass.Config.Defaults.{default_prefs}
use cosmic_pass.Fixtures.{plain_case, containment, two_logins, deps}
use cosmic_pass.Domain.Items.{ItemSummary}
use cosmic_pass.Search.Index.{ResultRow, search_rows, build}
use cosmic_pass.State.Types.{new_model, Msg, Revealed}
use cosmic_pass.State.Query.{selected_item}
use cosmic_pass.State.Session.{data_loaded}
use cosmic_pass.State.Update.{run}
use cosmic_pass.Usage.Table.{recency, prune}
use cosmic_pass.App.{CosmicPass, Message, update_inner}
use cosmic_pass.App.Events.{new_app}
use cosmic_pass.View.Panes.{result_button, result_buttons, popup}
use cosmic_pass.View.Presses.{sent, press_selects}
use cosmic_pass.View.Unrevealed.{with_revealed, popup-with_revealed}
use cosmic_pass.View.Titles.{title_runs, runs_from, skip_below}
use cosmic_pass.View.Spread.{spread, marked_from, is_increasing, spread-title_runs}

two_runs :
    title_runs (chars "GitHub") (0 ∷ 1 ∷ []) ≡ (chars "Gi", true) ∷ (chars "tHub", false) ∷ []
unfolding title_runs runs_from skip_below
two_runs = refl

spread-title_runs_example :
    spread (title_runs (chars "GitHub") (0 ∷ 3 ∷ [])) ≡ marked_from 0 (0 ∷ 3 ∷ []) (chars "GitHub")
unfolding is_increasing all
spread-title_runs_example = spread-title_runs (chars "GitHub") (0 ∷ 3 ∷ []) refl

-- Two items that are loaded.
abbrev loading : List (Msg × ℤ)
loading = (Msg.data_loaded two_logins, pos 1) ∷ []

two_rows : length (run plain_case containment (new_model default_prefs) loading).view.results ≡ 2
unfolding run data_loaded search_rows new_model default_prefs containment build recency prune
    is_whitespace
two_rows = refl

abbrev two_listed : CosmicPass
two_listed = record (new_app deps 3 default_prefs) {
  model = run plain_case containment (new_model default_prefs) loading;
  last_press = some (0, 500);
}

press_selects_example :
    (hit : ResultRow) × (item : ItemSummary) × (message : Message) × (get_elem?
        (result_buttons two_listed.model 0 two_listed.model.view.results)
        1
      ≡ some (result_button two_listed.model 1 hit item))
    × (sent (result_button two_listed.model 1 hit item) ≡ some message)
    × (selected_item (update_inner plain_case containment 600 (pos 2) message two_listed).0.model
        ≡ some item)
press_selects_example =
    press_selects plain_case containment default_prefs loading two_listed 1 600 (pos 2) refl
      (omega (arith, two_rows)) refl

popup-with_revealed_example :
    popup plain_case (with_revealed (Revealed.totp none true) (new_model default_prefs)) (pos 5)
    ≡ popup plain_case (new_model default_prefs) (pos 5)
unfolding new_model
popup-with_revealed_example =
    popup-with_revealed plain_case (new_model default_prefs) (Revealed.totp none true) (pos 5) refl
