-- ===== src/State/Reveal.antt =====
-- src/core/state.rs: revealing a secret field or a one-time code in the action list.
use cosmic_pass.Base.{
  ℕ, ◌+◌, ◌%◌, String, Bool, true, false, not, ◌&&◌, ◌||◌, Option, some, none, List, [], ◌∷◌,
  if◌then◌else◌, ◌==◌, decide, is_some, is_some_and, and_then, or_else, map_option, get_elem?,
}
use cosmic_pass.Base.Int.{ℤ, u64_mod}
use cosmic_pass.Domain.Items.{ItemKey, FieldRef, key_discrete}
use cosmic_pass.Pass.Error.{PassError, Result, ok, err, to_string}
use cosmic_pass.Actions.Rows.{ActionEntry, CopySource, field_source, totp_source}
use cosmic_pass.State.Types.{Mode, Revealed, RevealTarget, Token, Model, Effect, Outcome}
use cosmic_pass.State.Query.{
  field_target, totp_code, totp_fetching, actions_of, reveal_target, in_actions,
  highlighted_totp_field,
}
use cosmic_pass.State.View.{fresh_token, make_token, notify, clear_revealed}
use cosmic_pass.State.Copy.{notified}
use cosmic_pass.Totp.{TotpDisplay, new_display, needs_refresh}
use text.Mathlib.Text.{◌==◌ as str_eq}

abbrev set_revealed : Model → Revealed → Model
set_revealed m r = record m { view = record (m.view) { revealed = r } }

abbrev with_totp_token : Option Token → Model → Model × Token
with_totp_token (some t) m = (m, t)
with_totp_token none m =
    let made = make_token m in
    (
      record made { view = record (made.view) { reveal_totp_cancel = some (fresh_token m) } },
      fresh_token m,
    )

-- `Model::reveal_totp_token`.
unfoldable pub reveal_totp_token : Model → Model × Token
reveal_totp_token m = with_totp_token m.view.reveal_totp_cancel m

-- The code that stays on screen until its replacement lands.
abbrev kept_code : Revealed → Option TotpDisplay
kept_code Revealed.nothing = none
kept_code (Revealed.field target value) = none
kept_code (Revealed.totp code fetching) = code

abbrev fetch_in : Model → Mode → Outcome
fetch_in m Mode.list = (m, [])
fetch_in m (Mode.preferences rebinding) = (m, [])
fetch_in m (Mode.actions key selected) =
    let (after, cancel) =
      reveal_totp_token (set_revealed m (Revealed.totp (kept_code m.view.revealed) true)) in
    (after, Effect.fetch_totp key cancel ∷ [])

-- `Model::fetch_totp`.
unfoldable pub fetch_totp : Model → Outcome
unfolding reveal_totp_token
fetch_totp m = fetch_in m m.view.mode

-- Whether the highlighted row already shows its value, or waits for it.
unfoldable pub was_showing : Revealed → ItemKey → ActionEntry → CopySource → Bool
unfolding totp_code totp_fetching field_target decide
was_showing r key row (totp_source name) = is_some (totp_code r) || totp_fetching r
was_showing r key row (field_source f) =
    is_some_and row.field_index
      λ index. is_some_and (field_target r) λ t. decide (key_discrete t.key key) && t.index == index

-- The fetch for a pinned target.
unfoldable pub reveal_pinned : Model → ItemKey → FieldRef → ℕ → ℕ → Option RevealTarget → Outcome
reveal_pinned m key f index generation none = (m, [])
reveal_pinned m key f index generation (some target) =
    let made = make_token (set_revealed m (Revealed.field target none)) in
    (
      record made { view = record (made.view) { reveal_cancel = some (fresh_token m) } },
      Effect.fetch_reveal key f.name index generation (fresh_token m) ∷ [],
    )

-- The reveal of a secret field at a position. The generation is a `u64`.
unfoldable pub reveal_field : Model → ItemKey → FieldRef → Option ℕ → Outcome
unfolding reveal_target reveal_pinned
reveal_field m key f none = (m, [])
reveal_field m key f (some index) =
    let generation = (m.next_reveal + 1) % u64_mod in
    let counted = record m { next_reveal = generation } in
    reveal_pinned counted key f index generation (reveal_target counted key index generation)

-- The reveal of a row, once the surface is masked.
unfoldable pub reveal_row : Model → ItemKey → ActionEntry → CopySource → Outcome
unfolding fetch_totp reveal_field
reveal_row m key row (totp_source name) = fetch_totp m
reveal_row m key row (field_source f) =
    let revealed = reveal_field m key f row.field_index in if f.secret then revealed else (m, [])

unfoldable pub toggle_row : Model → ItemKey → Option ActionEntry → Outcome
unfolding clear_revealed was_showing reveal_row
toggle_row m key none = (m, [])
toggle_row m key (some row) =
    let masked = clear_revealed m in
    let revealed = reveal_row masked key row row.source in
    if was_showing m.view.revealed key row row.source then (masked, []) else revealed

unfoldable pub toggle_in : Model → Mode → Outcome
unfolding get_elem? actions_of toggle_row
toggle_in m Mode.list = (m, [])
toggle_in m (Mode.preferences rebinding) = (m, [])
toggle_in m (Mode.actions key selected) = toggle_row m key (get_elem? (actions_of m) selected)

-- `Model::toggle_reveal`.
unfoldable pub toggle_reveal : Model → Outcome
unfolding toggle_in
toggle_reveal m = toggle_in m m.view.mode

-- Whether a reveal's answer is the one waited for.
unfoldable pub is_awaited : Revealed → ℕ → ℕ → Bool
unfolding field_target
is_awaited r index generation =
    is_some_and (field_target r) λ t. t.generation == generation && t.index == index

abbrev put_value : Revealed → String → Revealed
put_value Revealed.nothing v = Revealed.nothing
put_value (Revealed.field target value) v = Revealed.field target (some v)
put_value (Revealed.totp code fetching) v = Revealed.totp code fetching

-- An answer that was waited for.
unfoldable pub reveal_settled : Model → Result String → Outcome
unfolding notify to_string
reveal_settled m (ok v) = (set_revealed m (put_value m.view.revealed v), [])
reveal_settled m (err PassError.cancelled) = (m, [])
reveal_settled m (err e) = notified (set_revealed m Revealed.nothing) (to_string e)

-- `Msg::RevealFetched`.
unfoldable pub reveal_fetched : Model → ItemKey → ℕ → ℕ → Result String → Outcome
unfolding in_actions is_awaited reveal_settled
reveal_fetched m key index generation result =
    if not (in_actions m key) || not (is_awaited m.view.revealed index generation)
    then (m, [])
    else reveal_settled (record m { view = record (m.view) { reveal_cancel = none } }) result

-- `BTreeMap::remove` on the codes of an item, whose names are distinct: the value under a name.
unfoldable pub code_of : String → List (String × String) → Option String
code_of name [] = none
code_of name ((n, code) ∷ codes) =
    let rest = code_of name codes in if str_eq n name then some code else rest

-- The code of the highlighted row, by its own name or by `totp` for the standard field.
unfoldable pub picked_code : List (String × String) → String → Option String
unfolding code_of
picked_code codes field =
    or_else (code_of field codes) (if str_eq field "totp_uri" then code_of "totp" codes else none)

unfoldable pub fetched_display : Model → List (String × String) → ℤ → Option TotpDisplay
unfolding highlighted_totp_field picked_code new_display
fetched_display m codes now =
    and_then (highlighted_totp_field m)
      λ field. map_option (λ code. new_display field code now) (picked_code codes field)

abbrev settle : Revealed → Revealed
settle Revealed.nothing = Revealed.nothing
settle (Revealed.field target value) = Revealed.field target value
settle (Revealed.totp code fetching) = Revealed.totp code false

-- `Model::totp_fetch_settled`.
unfoldable pub totp_fetch_settled : Model → Model
totp_fetch_settled m = set_revealed m (settle m.view.revealed)

unfoldable pub totp_settled : Model → Result (List (String × String)) → ℤ → Outcome
unfolding fetched_display totp_fetch_settled notify to_string
totp_settled m (ok codes) now =
    (set_revealed m (Revealed.totp (fetched_display m codes now) false), [])
totp_settled m (err PassError.cancelled) now = (totp_fetch_settled m, [])
totp_settled m (err e) now = notified (totp_fetch_settled m) (to_string e)

-- `Msg::TotpFetched`.
unfoldable pub totp_fetched : Model → ItemKey → Result (List (String × String)) → ℤ → Outcome
unfolding in_actions totp_fetching totp_settled
totp_fetched m key result now =
    if not (in_actions m key) || not (totp_fetching m.view.revealed)
    then (m, [])
    else totp_settled m result now

-- `Msg::Tick`.
unfoldable pub tick : Model → ℤ → Outcome
unfolding totp_code totp_fetching needs_refresh fetch_totp
tick m now =
    let fetched = fetch_totp m in
    if is_some_and (totp_code m.view.revealed) (λ t. needs_refresh t now)
      && not (totp_fetching m.view.revealed)
    then fetched
    else (m, [])
