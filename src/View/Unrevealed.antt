-- ===== src/View/Unrevealed.antt =====
-- src/app/view: only the action list shows what is revealed.
use cosmic_pass.Base.{
  ℕ, suc, ◌≡◌, refl, ap, ◌∙◌, Bool, true, false, Option, unwrap_or, none, some, List, map, [], ◌∷◌,
  ◌++◌,
}
use cosmic_pass.Base.Int.{ℤ}
use cosmic_pass.Base.Unicode.{Unicode}
use cosmic_pass.Domain.Items.{ItemSummary}
use cosmic_pass.Search.Index.{ResultRow}
use cosmic_pass.State.Types.{Model, Mode, Revealed}
use cosmic_pass.View.{pane, notices, empty_list_message}
use cosmic_pass.View.Panes.{
  Widget, caption, search_field, rows_or_message, in_pane, found_button, result_button,
  result_buttons, list_view, panel, preferences_view, popup,
}

-- The model, with something else revealed.
abbrev pub with_revealed : Revealed → Model → Model
with_revealed r m = record m { view = record (m.view) { revealed = r } }

abbrev pub in_action_list : Mode → Bool
in_action_list (Mode.actions key selected) = true
in_action_list _ = false

module _ (r : Revealed) (m : Model) where
  found_button_same :
      (i : ℕ) (hit : ResultRow) (o : Option ItemSummary)
      → found_button (with_revealed r m) i hit o ≡ found_button m i hit o
  unfolding result_button
  found_button_same i hit none = refl
  found_button_same i hit (some item) = refl

  result_buttons_same :
      (i : ℕ) (hits : List ResultRow)
      → result_buttons (with_revealed r m) i hits ≡ result_buttons m i hits
  unfolding result_buttons
  result_buttons_same i [] = refl
  result_buttons_same i (hit ∷ hits) =
      rw (result_buttons_same (suc i) hits)
        (ap (λ ws. ws ++ result_buttons m (suc i) hits) (found_button_same i hit _))

  rows_same :
      (hits : List ResultRow) → rows_or_message (with_revealed r m) hits ≡ rows_or_message m hits
  unfolding empty_list_message
  rows_same [] = refl
  rows_same (hit ∷ hits) = result_buttons_same 0 (hit ∷ hits)

  list_view_same : list_view (with_revealed r m) ≡ list_view m
  unfolding list_view
  list_view_same =
      ap (λ (ws : List Widget). search_field m ++ (map caption (notices m) ++ ws))
        (rows_same m.view.results)

  panel_same : (u : Unicode) → panel u (with_revealed r m) ≡ panel u m
  unfolding panel
  panel_same u = refl

  preferences_view_same :
      (u : Unicode) → preferences_view u (with_revealed r m) ≡ preferences_view u m
  unfolding preferences_view
  preferences_view_same u = refl

  in_pane_same :
      (u : Unicode) (now : ℤ) (mode : Mode)
      → in_action_list mode ≡ false
      → in_pane u (with_revealed r m) now (pane mode) ≡ in_pane u m now (pane mode)
  in_pane_same u now Mode.list h =
      ap (λ o. unwrap_or o (list_view (with_revealed r m))) (panel_same u)
      ∙ ap (unwrap_or (panel u m)) list_view_same
  in_pane_same u now (Mode.preferences rebinding) h = preferences_view_same u
  in_pane_same u now (Mode.actions key selected) h = absurd (cc)

-- Outside the action list the popup is the same whatever is revealed: no pane but that list shows
-- anything of a revealed secret or code.
pub popup-with_revealed :
    (u : Unicode) (m : Model) (r : Revealed) (now : ℤ)
    → in_action_list m.view.mode ≡ false
    → popup u (with_revealed r m) now ≡ popup u m now
unfolding popup
popup-with_revealed u m r now h = in_pane_same r m u now m.view.mode h
