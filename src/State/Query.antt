-- ===== src/State/Query.antt =====
-- src/core/state.rs: what the state says of itself, without a change.
use cosmic_pass.Base.{
  ℕ, String, Bool, true, false, not, ◌&&◌, ◌||◌, Option, some, none, List, [], ◌∷◌, if◌then◌else◌,
  ◌==◌, decide, is_some, is_some_and, and_then, map_option, find, get_elem?,
}
use cosmic_pass.Base.Int.{ℤ, eqb_ℤ}
use cosmic_pass.Domain.Items.{
  AccountId, ItemKey, ItemSummary, CacheFile, cache_format_version, key_discrete, field_discrete,
}
use cosmic_pass.Actions.Rows.{ActionEntry, CopySource, field_source, totp_source, all_actions}
use cosmic_pass.State.Types.{
  SessionState, DataSource, RefreshError, DataState, Mode, RevealTarget, Revealed, Model,
}
use cosmic_pass.Totp.{TotpDisplay}
use cosmic_pass.Usage.Table.{records}

-- `RevealTarget::still_describes`.
unfoldable pub still_describes : RevealTarget → ItemSummary → Bool
unfolding decide get_elem?
still_describes t item =
    decide (key_discrete item.key t.key)
    && eqb_ℤ item.modified_at t.modified_at
    && is_some_and (get_elem? item.fields t.index) (λ f. decide (field_discrete f t.field))

-- `Revealed::value`, `field_target`, `totp_code` and `totp_fetching`.
unfoldable pub revealed_secret : Revealed → Option String
revealed_secret Revealed.nothing = none
revealed_secret (Revealed.field target value) = value
revealed_secret (Revealed.totp code fetching) = none

unfoldable pub field_target : Revealed → Option RevealTarget
field_target Revealed.nothing = none
field_target (Revealed.field target value) = some target
field_target (Revealed.totp code fetching) = none

unfoldable pub totp_code : Revealed → Option TotpDisplay
totp_code Revealed.nothing = none
totp_code (Revealed.field target value) = none
totp_code (Revealed.totp code fetching) = code

unfoldable pub totp_fetching : Revealed → Bool
totp_fetching Revealed.nothing = false
totp_fetching (Revealed.field target value) = false
totp_fetching (Revealed.totp code fetching) = fetching

-- `Model::signed_in_account`.
unfoldable pub signed_in_account : SessionState → Option AccountId
signed_in_account (SessionState.signed_in account) = some account
signed_in_account _ = none

fetch_time : DataState → DataSource → Option ℤ
fetch_time d DataSource.memory = d.fetched_at
fetch_time d DataSource.disk_cache = d.cached_at

-- `Model::cache_snapshot`.
unfoldable pub cache_snapshot : Model → Option CacheFile
unfolding signed_in_account fetch_time
cache_snapshot m = and_then (signed_in_account m.session) λ account.
    map_option
      (λ at. record {
        format_version = cache_format_version;
        account = account;
        fetched_at = at;
        vaults = m.data_state.vaults;
        items = m.data_state.items;
        usage = records m.usage;
      })
      (fetch_time m.data_state m.data_state.source)

-- `Model::can_start_login`.
unfoldable pub can_start_login : SessionState → Bool
can_start_login SessionState.signed_out = true
can_start_login (SessionState.error text) = true
can_start_login _ = false

-- The line for data that may be out of date.
unfoldable pub stale_line : Option RefreshError → List ItemSummary → String
stale_line (some RefreshError.unreachable) [] = "Can’t reach Proton Pass. Press F5 to retry."
stale_line (some RefreshError.unreachable) (i ∷ items) =
    "Can’t reach Proton Pass — showing saved items. Press F5 to retry."
stale_line (some RefreshError.other) items = "Data may be out of date. Press F5 to refresh."
stale_line none items = "Data may be out of date. Press F5 to refresh."

-- `Model::stale_notice`.
unfoldable pub stale_notice : Model → Option String
unfolding stale_line
stale_notice m =
    let d = m.data_state in
    if not d.stale || d.refreshing then none else some (stale_line d.last_error d.items)

-- `Model::may_refresh`.
unfoldable pub may_refresh : SessionState → Bool
may_refresh SessionState.checking = false
may_refresh SessionState.signed_out = false
may_refresh SessionState.locked = false
may_refresh SessionState.cli_missing = false
may_refresh SessionState.logging_in = false
may_refresh (SessionState.error text) = false
may_refresh SessionState.unknown = true
may_refresh (SessionState.signed_in account) = true

-- `Model::item`.
unfoldable pub item_of : Model → ItemKey → Option ItemSummary
unfolding find decide
item_of m key = find (λ i. decide (key_discrete i.key key)) m.data_state.items

-- `Model::selected_item`.
unfoldable pub selected_item : Model → Option ItemSummary
unfolding get_elem?
selected_item m =
    and_then (get_elem? m.view.results m.view.selected)
      (λ row. get_elem? m.data_state.items row.item)

item_in : Model → Mode → Option ItemSummary
unfolding item_of selected_item
item_in m Mode.list = selected_item m
item_in m (Mode.preferences rebinding) = selected_item m
item_in m (Mode.actions key selected) = item_of m key

-- `Model::target_item`: the item that a sub-mode shows, else the selected result.
unfoldable pub target_item : Model → Option ItemSummary
unfolding item_in
target_item m = item_in m m.view.mode

abbrev rows_of : Option ItemSummary → List ActionEntry
rows_of none = []
rows_of (some item) = all_actions item

-- `Model::actions`.
unfoldable pub actions_of : Model → List ActionEntry
unfolding target_item
actions_of m = rows_of (target_item m)

-- `Model::reveal_target`.
unfoldable pub reveal_target : Model → ItemKey → ℕ → ℕ → Option RevealTarget
unfolding item_of get_elem?
reveal_target m key index generation = and_then (item_of m key) λ item.
    map_option
      (λ f. record {
        generation = generation;
        key = key;
        index = index;
        field = f;
        modified_at = item.modified_at;
      })
      (get_elem? item.fields index)

-- `Model::revealed_value`.
unfoldable pub revealed_value : Model → ℕ → Option String
unfolding field_target revealed_secret target_item still_describes
revealed_value m index = and_then (field_target m.view.revealed) λ target.
    and_then (revealed_secret m.view.revealed) λ value.
      and_then (target_item m)
        λ item. if target.index == index && still_describes target item then some value else none

-- `Model::revealed_totp`.
unfoldable pub revealed_totp : Model → Option TotpDisplay
unfolding totp_code
revealed_totp m = totp_code m.view.revealed

-- `Model::revealing_field`.
unfoldable pub revealing_field : Model → ℕ → Bool
unfolding field_target
revealing_field m index =
    is_some m.view.reveal_cancel
    && is_some_and (field_target m.view.revealed) (λ t. t.index == index)

-- `Model::revealing_totp`.
unfoldable pub revealing_totp : Model → Bool
unfolding totp_fetching
revealing_totp m = totp_fetching m.view.revealed

abbrev shows : ItemKey → Mode → Bool
shows key Mode.list = false
shows key (Mode.preferences rebinding) = false
shows key (Mode.actions k selected) = decide (key_discrete k key)

-- `Model::in_actions`.
unfoldable pub in_actions : Model → ItemKey → Bool
unfolding decide
in_actions m key = shows key m.view.mode

abbrev totp_name : CopySource → Option String
totp_name (totp_source name) = some name
totp_name (field_source f) = none

abbrev highlighted : Model → Mode → Option String
highlighted m Mode.list = none
highlighted m (Mode.preferences rebinding) = none
highlighted m (Mode.actions key selected) =
    and_then (get_elem? (actions_of m) selected) (λ e. totp_name e.source)

-- `Model::highlighted_totp_field`.
unfoldable pub highlighted_totp_field : Model → Option String
unfolding get_elem? actions_of
highlighted_totp_field m = highlighted m m.view.mode
