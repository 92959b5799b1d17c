-- ===== src/Testing/Runs.antt =====
-- src/testing.rs: what a test can rely on, in whatever order it sends, scripts and waits.
use cosmic_pass.Base.{
  ℕ, ◌≡◌, refl, sym, ◌∙◌, ap, Bool, true, Option, some, none, List, [], ◌∷◌, ◌++◌, length, is_some,
  arith, get_elem?, get_elem?_of_lt, ltb→lt,
}
use cosmic_pass.Base.Int.{ℤ}
use cosmic_pass.Base.Unicode.{Unicode}
use cosmic_pass.Config.Types.{Preferences}
use cosmic_pass.Domain.Items.{ItemSummary}
use cosmic_pass.Search.Index.{Matcher, ResultRow}
use cosmic_pass.Search.Rows.{rows_within}
use cosmic_pass.State.Types.{Model, Msg, Effect, Token, new_model}
use cosmic_pass.State.Update.{update}
use cosmic_pass.State.Window.{update-Tells}
use cosmic_pass.State.Window.Parts.{window_asks, told}
use cosmic_pass.State.Invariant.Sound.{IsSound, new_model-IsSound, update-IsSound}
use cosmic_pass.Testing.{BackendState, FakeClipboard}
use cosmic_pass.Testing.Harness.{
  Harness, Task, with_prefs, advance, start_effect, start_effects, send_no_wait, send_all, ended,
  join, ids_of, result_ids,
}

-- What a test does with a harness: it sends, waits for a task, scripts a fake, or lets time pass.
pub data Move : Type 0 where
  sent : Msg → Move
  joined : (Token → Bool) → ℕ → Move
  scripted : BackendState → FakeClipboard → Move
  passed : ℤ → Move

abbrev pub moved : Unicode → Matcher → Harness → Move → Harness
moved u mt h (sent msg) = send_no_wait u mt msg h
moved u mt h (joined early i) = join u mt early i h
moved u mt h (scripted backend clipboard) = record h { backend = backend; clipboard = clipboard }
moved u mt h (passed secs) = advance secs h

unfoldable pub run : Unicode → Matcher → Harness → List Move → Harness
run u mt h [] = h
run u mt h (move ∷ moves) = run u mt (moved u mt h move) moves

-- The harness holds the window for visible when the model does, no effect was one that it cannot
-- execute, and its model has the invariants of the reducer.
pub record IsFaithful (h : Harness) : Type 0 where
  pub same : h.visible ≡ h.model.view.visible
  pub handled : h.unhandled ≡ []
  pub sound : IsSound h.model

start_effect_keeps :
    (h : Harness) (e : Effect)
    → ((start_effect h e).model ≡ h.model) × ((start_effect h e).unhandled ≡ h.unhandled)
unfolding start_effect
start_effect_keeps h Effect.show_window = (refl, refl)
start_effect_keeps h e = (refl, refl)

start_effects_keeps :
    (h : Harness) (fx : List Effect)
    → ((start_effects h fx).model ≡ h.model) × ((start_effects h fx).unhandled ≡ h.unhandled)
unfolding start_effects
start_effects_keeps h [] = (refl, refl)
start_effects_keeps h (e ∷ es) =
    let (m, n) = start_effects_keeps (start_effect h e) es in
    let (m', n') = start_effect_keeps h e in (m ∙ m', n ∙ n')

-- Where the last request leaves the window.
abbrev last_told : Bool → List Bool → Bool
last_told up [] = up
last_told up (ask ∷ asks) = last_told ask asks

told_last : (up b : Bool) (asks : List Bool) → told up asks ≡ some b → last_told up asks ≡ b
told_last up b [] h = cc
told_last up b (ask ∷ []) h = cc
told_last up b (ask ∷ more ∷ asks) h = cc

start_effects_visible :
    (h : Harness) (fx : List Effect)
    → (start_effects h fx).visible ≡ last_told h.visible (window_asks fx)
unfolding start_effects start_effect
start_effects_visible h [] = refl
start_effects_visible h (Effect.show_window ∷ es) =
    start_effects_visible (start_effect h Effect.show_window) es
start_effects_visible h (Effect.hide_window ∷ es) =
    start_effects_visible (start_effect h Effect.hide_window) es
start_effects_visible h (e ∷ es) = start_effects_visible (start_effect h e) es

send_no_wait-IsFaithful :
    (u : Unicode) (mt : Matcher) (msg : Msg) (h : Harness)
    → IsFaithful h
    → IsFaithful (send_no_wait u mt msg h)
unfolding send_no_wait
send_no_wait-IsFaithful u mt msg h f =
    let (m, fx) = update u mt h.model msg h.now in
    let before = record h { model = m; messages = h.messages ++ msg ∷ [] } in
    let (kept, quiet) = start_effects_keeps before fx in
    let tells : told h.visible (window_asks fx) ≡ some m.view.visible =
      rw f.same (update-Tells u mt h.model msg h.now) in
    record {
      same =
          start_effects_visible before fx
          ∙ told_last h.visible m.view.visible (window_asks fx) tells
          ∙ ap (λ (n : Model). n.view.visible) (sym kept);
      handled = quiet ∙ f.handled;
      sound = rw kept (update-IsSound u mt h.model msg h.now f.sound);
    }

send_all-IsFaithful :
    (u : Unicode) (mt : Matcher) (msgs : List Msg) (h : Harness)
    → IsFaithful h
    → IsFaithful (send_all u mt msgs h)
unfolding send_all
send_all-IsFaithful u mt [] h f = f
send_all-IsFaithful u mt (msg ∷ msgs) h f =
    send_all-IsFaithful u mt msgs (send_no_wait u mt msg h) (send_no_wait-IsFaithful u mt msg h f)

ended-IsFaithful :
    (early : Token → Bool) (i : ℕ) (h : Harness) (task : Option Task)
    → IsFaithful h
    → IsFaithful (ended early i h task).1
unfolding ended
ended-IsFaithful early i h none f = f
ended-IsFaithful early i h (some (e, m)) f = record {
  same = f.same;
  handled = f.handled;
  sound = f.sound;
}

moved-IsFaithful :
    (u : Unicode) (mt : Matcher) (h : Harness) (move : Move)
    → IsFaithful h
    → IsFaithful (moved u mt h move)
unfolding join
moved-IsFaithful u mt h (sent msg) f = send_no_wait-IsFaithful u mt msg h f
moved-IsFaithful u mt h (joined early i) f =
    let task = get_elem? h.tasks i in
    send_all-IsFaithful u mt (ended early i h task).0 (ended early i h task).1
      (ended-IsFaithful early i h task f)
moved-IsFaithful u mt h (scripted backend clipboard) f = record {
  same = f.same;
  handled = f.handled;
  sound = f.sound;
}
moved-IsFaithful u mt h (passed secs) f = record {
  same = f.same;
  handled = f.handled;
  sound = f.sound;
}

run_from-IsFaithful :
    (u : Unicode) (mt : Matcher) (h : Harness) (moves : List Move)
    → IsFaithful h
    → IsFaithful (run u mt h moves)
unfolding run
run_from-IsFaithful u mt h [] f = f
run_from-IsFaithful u mt h (move ∷ moves) f =
    run_from-IsFaithful u mt (moved u mt h move) moves (moved-IsFaithful u mt h move f)

with_prefs-IsFaithful :
    (u : Unicode) (mt : Matcher) (backend : BackendState) (prefs : Preferences)
    → IsFaithful (with_prefs backend prefs)
unfolding with_prefs new_model
with_prefs-IsFaithful u mt backend prefs = record {
  same = refl;
  handled = refl;
  sound = new_model-IsSound u mt prefs;
}

-- Rows that stand for items have their items' ids.
ids_of_total :
    (items : List ItemSummary) (rows : List ResultRow)
    → rows_within (length items) rows ≡ true
    → is_some (ids_of items rows) ≡ true
unfolding ids_of rows_within
ids_of_total items [] h = refl
ids_of_total items (r ∷ rows) h =
    ground
      (arith, ltb→lt r.item (length items), get_elem?_of_lt items r.item, ids_of_total items rows)

-- However a test sends messages, waits for tasks, scripts the fakes and lets time pass: the harness
-- holds the window for visible just when the model does, meets no effect that it cannot execute,
-- keeps the invariants of the reducer, and `result_ids` has an id for each row.
pub run-IsFaithful :
    (u : Unicode) (mt : Matcher) (backend : BackendState) (prefs : Preferences) (moves : List Move)
    → IsFaithful (run u mt (with_prefs backend prefs) moves)
      × (is_some (result_ids (run u mt (with_prefs backend prefs) moves)) ≡ true)
unfolding result_ids
run-IsFaithful u mt backend prefs moves =
    let f =
      run_from-IsFaithful u mt (with_prefs backend prefs) moves
        (with_prefs-IsFaithful u mt backend prefs) in
    (f, ids_of_total _ _ f.sound.indexed.within)
