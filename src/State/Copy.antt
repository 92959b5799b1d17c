-- ===== src/State/Copy.antt =====
-- src/core/state.rs: copying a field or a one-time code, from the request to the confirmation.
use cosmic_pass.Base.{
  ℕ, String, true, Option, some, none, [], ◌∷◌, if◌then◌else◌, decide, unwrap_or, get_elem?,
}
use cosmic_pass.Base.Int.{ℤ}
use cosmic_pass.Domain.Items.{ItemKey, ItemSummary, key_discrete}
use cosmic_pass.Pass.Error.{PassError, Result, ok, err, to_string}
use cosmic_pass.Search.Index.{Matcher}
use cosmic_pass.Actions.Rows.{CopySource, field_source, totp_source, is_secret}
use cosmic_pass.State.Types.{Mode, PendingFetch, Token, Model, Effect, Outcome}
use cosmic_pass.State.Query.{target_item, actions_of}
use cosmic_pass.State.View.{fresh_token, make_token, notify, cancel_pending, request_refresh, hide}
use cosmic_pass.State.Session.{session_error}
use cosmic_pass.Usage.Table.{record_use}

-- The request for the value of a source, which also a stored value takes.
unfoldable pub fetch_effect : ItemKey → CopySource → Token → Effect
fetch_effect key (field_source f) cancel = Effect.fetch_and_copy key f.name f.secret cancel
fetch_effect key (totp_source name) cancel = Effect.fetch_totp_and_copy key name cancel

-- `Model::start_copy`.
unfoldable pub start_copy : Model → ItemKey → CopySource → Outcome
unfolding cancel_pending fetch_effect
start_copy m key source =
    let c = cancel_pending m in
    let made = make_token c in
    (
      record made {
        view = record (made.view) {
          pending = some (record { key = key; cancel = fresh_token c; secret = is_secret source });
        };
      },
      fetch_effect key source (fresh_token c) ∷ [],
    )

-- `notify`, as a handler's last step.
abbrev pub notified : Model → String → Outcome
notified m text = let (after, effect) = notify m text in (after, effect ∷ [])

abbrev copy_picked : Model → ItemKey → Option CopySource → String → Outcome
copy_picked m key none missing = notified m missing
copy_picked m key (some source) missing = start_copy m key source

-- `Model::copy_with`.
unfoldable pub copy_with : Model → (ItemSummary → Option CopySource) → String → Outcome
unfolding target_item start_copy notify
copy_with m pick missing = elim (target_item m) [
  | none ↦ (m, [])
  | some item ↦ copy_picked m item.key (pick item) missing
]

abbrev activate_in : Model → Mode → Option ℕ → Outcome
activate_in m Mode.list index = (m, [])
activate_in m (Mode.preferences rebinding) index = (m, [])
activate_in m (Mode.actions key selected) index =
    elim (get_elem? (actions_of m) (unwrap_or index selected)) [
      | none ↦ (m, [])
      | some row ↦ start_copy m key row.source
    ]

-- `Msg::ActivateAction`.
unfoldable pub activate_action : Model → Option ℕ → Outcome
unfolding get_elem? actions_of start_copy
activate_action m index = activate_in m m.view.mode index

-- `Model::finish_copy`.
unfoldable pub finish_copy : Model → ItemKey → ℤ → Outcome
unfolding record_use
finish_copy m key now = (
  record m { usage = record_use m.usage key now; view = record (m.view) { copying = true } },
  Effect.persist ∷ [],
)

-- An error that may say something about the session: it is shown, and applied.
unfoldable pub copy_failed : Matcher → Model → PassError → Outcome
unfolding notify session_error to_string
copy_failed mt m e =
    let (noted, notice) = notify m (to_string e) in
    let (after, effects) = session_error mt noted e in (after, notice ∷ effects)

-- The answer to the pending fetch.
unfoldable pub copy_settled : Matcher → Model → ItemKey → PendingFetch → Result String → ℤ → Outcome
unfolding finish_copy notify request_refresh copy_failed
copy_settled mt m key pending (ok value) now =
    let (after, effects) = finish_copy m key now in
    (after, Effect.copy value pending.secret ∷ effects)
copy_settled mt m key pending (err PassError.cancelled) now = (m, [])
copy_settled mt m key pending (err PassError.not_found) now =
    let (noted, notice) = notify m "Item no longer exists" in
    let (after, effects) = request_refresh noted in (after, notice ∷ effects)
copy_settled mt m key pending (err PassError.field_missing) now = notified m "This field is empty"
copy_settled mt m key pending (err e) now = copy_failed mt m e

-- The fetch is taken if it is the one answered; an answer for another item is dropped.
unfoldable pub take_pending :
    Matcher → Model → Option PendingFetch → ItemKey → Result String → ℤ → Outcome
unfolding decide copy_settled
take_pending mt m none key result now = (m, [])
take_pending mt m (some p) key result now =
    if decide (key_discrete p.key key)
    then copy_settled mt (record m { view = record (m.view) { pending = none } }) key p result now
    else (m, [])

-- `Model::copy_fetched`.
unfoldable pub copy_fetched : Matcher → Model → ItemKey → Result String → ℤ → Outcome
unfolding take_pending
copy_fetched mt m key result now = take_pending mt m m.view.pending key result now

-- `Model::copy_confirmed`.
unfoldable pub copy_confirmed : Matcher → Model → Outcome
unfolding hide
copy_confirmed mt m = let hidden = hide mt m in if m.view.copying then hidden else (m, [])

-- `Msg::CopyFinished`.
unfoldable pub copy_finished : Matcher → Model → (failure : Option String) → Outcome
unfolding copy_confirmed notify
copy_finished mt m none = copy_confirmed mt m
copy_finished mt m (some text) = notified m "Clipboard unavailable"
