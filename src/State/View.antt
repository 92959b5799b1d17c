-- ===== src/State/View.antt =====
-- src/core/state.rs: the parts of the reducer that change the view: notices, tokens, the reveal,
-- the selection, the result rows, showing and hiding.
use cosmic_pass.Base.{
  ℕ, suc, ◌+◌, ◌-◌, ◌%◌, min, String, Bool, true, not, ◌&&◌, ◌||◌, Option, some, none, [], ◌∷◌,
  if◌then◌else◌, ◌==◌, decide, is_some_and, and_then, map_option, unwrap_or, position, get_elem?,
  length,
}
use cosmic_pass.Base.Int.{ℤ, pos, negsuc, leb_ℤ, saturating_sub_i64, u64_mod}
use cosmic_pass.Base.Unicode.{Unicode}
use cosmic_pass.Domain.Items.{ItemKey, Listing, key_discrete}
use cosmic_pass.Search.Index.{Matcher, search_rows, build}
use cosmic_pass.State.Types.{
  Mode, Revealed, RevealTarget, PendingFetch, Token, Model, Effect, Outcome, empty_view,
}
use cosmic_pass.State.Query.{
  still_describes, field_target, may_refresh, item_of, selected_item, actions_of,
}
use cosmic_pass.Usage.Table.{recency, prune}

-- `CancellationToken::new`: a handle that no other token has.
abbrev pub fresh_token : Model → Token
fresh_token m = m.tokens.made

abbrev pub make_token : Model → Model
make_token m = record m { tokens = record (m.tokens) { made = m.tokens.made + 1 } }

-- `cancel`, on the token that an option holds.
abbrev pub cancel_token : Option Token → Model → Model
cancel_token none m = m
cancel_token (some t) m = record m {
  tokens = record (m.tokens) { cancelled = t ∷ m.tokens.cancelled };
}

-- `Model::notify`. The counter is a `u64`.
unfoldable pub notify : Model → String → Model × Effect
notify m text =
    let id = (m.next_notice + 1) % u64_mod in
    (
      record m {
        next_notice = id;
        view = record (m.view) { notice = some (record { id = id; text = text }) };
      },
      Effect.expire_notice id,
    )

-- `Model::cancel_reveal`.
unfoldable pub cancel_reveal : Model → Model
cancel_reveal m =
    cancel_token m.view.reveal_cancel (record m { view = record (m.view) { reveal_cancel = none } })

-- `Model::drop_reveal`.
unfoldable pub drop_reveal : Model → Model
unfolding cancel_reveal
drop_reveal m = cancel_reveal (record m { view = record (m.view) { revealed = Revealed.nothing } })

-- `Model::clear_revealed`.
unfoldable pub clear_revealed : Model → Model
unfolding drop_reveal
clear_revealed m =
    let d = drop_reveal m in
    cancel_token d.view.reveal_totp_cancel
      (record d { view = record (d.view) { reveal_totp_cancel = none } })

-- `Model::leave_mode`.
unfoldable pub leave_mode : Model → Model
unfolding clear_revealed
leave_mode m = clear_revealed (record m { view = record (m.view) { mode = Mode.list } })

cancel_fetch : Option PendingFetch → Model → Model
cancel_fetch none m = m
cancel_fetch (some p) m = cancel_token (some p.cancel) m

-- `Model::cancel_pending`.
unfoldable pub cancel_pending : Model → Model
unfolding cancel_fetch
cancel_pending m =
    cancel_fetch m.view.pending (record m { view = record (m.view) { pending = none } })

-- `Model::recompute_results`.
unfoldable pub recompute_results : Matcher → Model → Model
recompute_results mt m =
    let results =
      search_rows mt m.index m.view.query (recency m.usage) m.data_state.items
        m.prefs.max_results in
    record m {
      view = record (m.view) {
        results = results;
        selected = min m.view.selected (length results - 1);
      };
    }

-- What `hide` leaves: no fetch, no reveal, the default view.
unfoldable pub put_away : Model → Model
unfolding cancel_pending leave_mode
put_away m = record (leave_mode (cancel_pending m)) { view = empty_view }

-- `Model::hide`.
unfoldable pub hide : Matcher → Model → Outcome
unfolding put_away recompute_results
hide mt m = (recompute_results mt (put_away m), Effect.hide_window ∷ [])

-- `Model::request_refresh`.
unfoldable pub request_refresh : Model → Outcome
unfolding may_refresh
request_refresh m = if m.data_state.refreshing || not (may_refresh m.session) then (m, []) else (
  record m { data_state = record (m.data_state) { refreshing = true } },
  Effect.refresh ∷ [],
)

-- Whether the data is too old to be shown without a refresh.
abbrev is_old : Option ℤ → ℤ → ℕ → Bool
is_old none now limit = true
is_old (some at) now limit = leb_ℤ (pos limit) (saturating_sub_i64 now at)

-- `Model::show`.
unfoldable pub show : Model → ℤ → Outcome
unfolding may_refresh request_refresh saturating_sub_i64
show m now =
    let shown = record m { view = record (m.view) { visible = true } } in
    let asked = request_refresh shown in
    if m.view.visible
    then (m, [])
    else if is_old m.data_state.fetched_at now m.prefs.refresh_stale_secs && may_refresh m.session
    then (asked.0, Effect.show_window ∷ asked.1)
    else (shown, Effect.show_window ∷ [])

-- `usize::saturating_add_signed`.
abbrev pub usize_max : ℕ
usize_max = u64_mod - 1

unfoldable pub saturating_add_signed : ℕ → ℤ → ℕ
saturating_add_signed n (pos k) = min (n + k) usize_max
saturating_add_signed n (negsuc k) = n - suc k

-- The highlight of the action list, moved within its rows.
unfoldable pub move_highlight : Model → ItemKey → ℕ → ℤ → Model
unfolding clear_revealed saturating_add_signed actions_of
move_highlight m key selected delta =
    let c = clear_revealed m in
    record c {
      view = record (c.view) {
        mode =
            Mode.actions key
              (min (saturating_add_signed selected delta) (length (actions_of c) - 1));
      };
    }

-- The selected result, moved within the rows.
unfoldable pub move_result : Model → ℤ → Model
unfolding saturating_add_signed
move_result m delta =
    let len = length m.view.results in
    if len == 0 then m else record m {
      view = record (m.view) {
        selected = min (saturating_add_signed m.view.selected delta) (len - 1);
      };
    }

move_in : Mode → Model → ℤ → Model
unfolding move_highlight move_result
move_in Mode.list m delta = move_result m delta
move_in (Mode.preferences rebinding) m delta = move_result m delta
move_in (Mode.actions key selected) m delta = move_highlight m key selected delta

-- `Model::move_selection`.
unfoldable pub move_selection : Model → ℤ → Outcome
unfolding move_in
move_selection m delta = (move_in m.view.mode m delta, [])

-- Whether the item that a reveal was taken from still carries it.
unfoldable pub is_intact : Model → RevealTarget → Bool
unfolding item_of still_describes
is_intact m t = is_some_and (item_of m t.key) (still_describes t)

-- `Model::drop_stale_reveal`.
unfoldable pub drop_stale_reveal : Model → Model
unfolding is_intact drop_reveal field_target
drop_stale_reveal m = elim (field_target m.view.revealed) [
  | none ↦ m
  | some t ↦ if is_intact m t then m else drop_reveal m
]

-- Where the item of a key stands among the result rows.
unfoldable pub row_of : Model → ItemKey → Option ℕ
unfolding position get_elem? decide
row_of m key =
    position
      (λ row.
        is_some_and (get_elem? m.data_state.items row.item) (λ i. decide (key_discrete i.key key)))
      m.view.results

-- The new items, with what is derived from them.
unfoldable pub install : Unicode → Model → Listing → Model
install u m listing = record m {
  data_state = record (m.data_state) { vaults = listing.vaults; items = listing.items };
  usage = prune listing.items m.usage;
  index = build u listing.items;
}

-- The row of an item selected again, or the first one.
unfoldable pub reselect : Model → Option ItemKey → Model
unfolding row_of
reselect m key = record m {
  view = record (m.view) { selected = unwrap_or (and_then key (row_of m)) 0 };
}

-- `Model::replace_items`.
unfoldable pub replace_items : Unicode → Matcher → Model → Listing → Model
unfolding selected_item install recompute_results reselect drop_stale_reveal
replace_items u mt m listing = drop_stale_reveal (
    reselect (recompute_results mt (install u m listing))
      (map_option (λ i. i.key) (selected_item m)))
