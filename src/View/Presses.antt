-- ===== src/View/Presses.antt =====
-- src/app/view/list.rs: the rows of the list, and what a press on one selects.
use cosmic_pass.Base.{
  ◌∙◌, Option, none, false, ℕ, zero, suc, ◌+◌, ◌<◌, ◌≡◌, refl, true, some, List, [], ◌∷◌, arith,
  length, get_elem?, get_elem?_of_lt, lt→ltb,
}
use cosmic_pass.Base.Int.{ℤ}
use cosmic_pass.Base.Unicode.{Unicode}
use cosmic_pass.Config.Types.{Preferences}
use cosmic_pass.Domain.Items.{ItemSummary}
use cosmic_pass.Search.Index.{Matcher, ResultRow}
use cosmic_pass.Search.Rows.{rows_within}
use cosmic_pass.State.Types.{Model, Msg, new_model}
use cosmic_pass.State.Query.{selected_item}
use cosmic_pass.State.Update.{select, update, run}
use cosmic_pass.State.Invariant.Runs.{row_within, run-IsIndexed}
use cosmic_pass.State.Window.Parts.{window_asks}
use cosmic_pass.State.Invariant.Rows.Parts.{IsIndexed}
use cosmic_pass.App.{CosmicPass, Message, row_pressed, is_double, press_row, update_inner}
use cosmic_pass.App.Visible.{dispatch_quiet}
use cosmic_pass.View.Panes.{Widget, shows, button, search_input, result_button, result_buttons}

-- With an item for each hit, the widget at a position is the button of that position's hit.
get_elem?-result_buttons :
    (m : Model) (n i j : ℕ) (hits : List ResultRow) {hit : ResultRow} {item : ItemSummary}
    → n + i ≡ j
    → rows_within (length m.data_state.items) hits ≡ true
    → get_elem? hits i ≡ some hit
    → get_elem? m.data_state.items hit.item ≡ some item
    → get_elem? (result_buttons m n hits) i ≡ some (result_button m j hit item)
unfolding result_buttons get_elem? rows_within
get_elem?-result_buttons m n i j [] s w e f = absurd (cc)
get_elem?-result_buttons m n zero j (h ∷ hits) s w e f =
    let at : n ≡ j = omega arith in rw (← at) (ground arith)
get_elem?-result_buttons m n (suc i) j (h ∷ hits) s w e f =
    let (x, found) =
      get_elem?_of_lt m.data_state.items h.item
        (row_within (length m.data_state.items) 0 (h ∷ hits) w refl) in
    rw found (get_elem?-result_buttons m (suc n) i j hits (omega arith) (ground arith) e f)

selected_item-select :
    (m : Model) (i : ℕ) {hit : ResultRow} {item : ItemSummary}
    → i < length m.view.results
    → get_elem? m.view.results i ≡ some hit
    → get_elem? m.data_state.items hit.item ≡ some item
    → selected_item (select m i).0 ≡ some item
unfolding select selected_item
selected_item-select m i h e f = rw (lt→ltb i (length m.view.results) h, e) f

-- The message that a widget sends when it is pressed.
abbrev pub sent : Widget → Option Message
sent (shows part) = none
sent (button parts selected message) = some message
sent (search_input query) = none

select_asks :
    (u : Unicode) (mt : Matcher) (m : Model) (i : ℕ) (now : ℤ)
    → (window_asks (update u mt m (Msg.select i) now).1 ≡ [])
      × ((update u mt m (Msg.select i) now).0 ≡ (select m i).0)
unfolding update select
select_asks u mt m i now = ground arith

-- A press that is not the second one on its row in time leaves what the reducer gives.
model-row_pressed :
    (u : Unicode) (mt : Matcher) (at : ℕ) (now : ℤ) (i : ℕ) (app : CosmicPass)
    → is_double i at app.last_press ≡ false
    → (update_inner u mt at now (row_pressed i) app).0.model ≡ (select app.model i).0
unfolding update_inner press_row
model-row_pressed u mt at now i app h =
    let asks = select_asks u mt app.model i now in
    rw h (
      (dispatch_quiet u mt at now (Msg.select i) (record app { last_press = some (i, at) })
        asks.0).1
      ∙ asks.1)

-- In a shell whose model is what any messages make of a new one, the list has a button for each
-- result row, in their order; the one at a position shows an item, and the message that it sends
-- selects that item, if it is not the second press on the row within 400 ms.
pub press_selects :
    (u : Unicode) (mt : Matcher) (prefs : Preferences) (msgs : List (Msg × ℤ)) (app : CosmicPass)
    (i at : ℕ) (now : ℤ)
    → app.model ≡ run u mt (new_model prefs) msgs
    → i < length app.model.view.results
    → is_double i at app.last_press ≡ false
    → (hit : ResultRow) × (item : ItemSummary) × (message : Message) × (get_elem?
          (result_buttons app.model 0 app.model.view.results)
          i
        ≡ some (result_button app.model i hit item))
      × (sent (result_button app.model i hit item) ≡ some message)
      × (selected_item (update_inner u mt at now message app).0.model ≡ some item)
unfolding result_button
press_selects u mt prefs msgs app i at now e h single =
    let m = app.model in
    let v : IsIndexed m = rw e (run-IsIndexed u mt prefs msgs) in
    let (hit, found) = get_elem?_of_lt m.view.results i h in
    let (item, there) =
      get_elem?_of_lt m.data_state.items hit.item
        (row_within (length m.data_state.items) i m.view.results v.within found) in
    (
      hit,
      item,
      row_pressed i,
      get_elem?-result_buttons m 0 i i m.view.results (omega arith) v.within found there,
      refl,
      rw (model-row_pressed u mt at now i app single) (selected_item-select m i h found there),
    )
