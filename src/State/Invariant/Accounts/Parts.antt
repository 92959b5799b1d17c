-- ===== src/State/Invariant/Accounts/Parts.antt =====
-- src/core/state.rs: the handlers keep the account of the data and the bound of the usage table.
use cosmic_pass.Base.{
  Option-cases, inl, inr, if_keeps, ◌%◌, get_elem?, decide, ℕ, ◌+◌, String, Option, some, none,
  arith,
}
use cosmic_pass.Base.Int.{u64_mod, ℤ}
use cosmic_pass.Base.Unicode.{Unicode}
use cosmic_pass.Usage.Table.{from_records}
use cosmic_pass.Usage.Recorded.{is_distinct-record_use, is_distinct-from_records, is_distinct-prune}
use cosmic_pass.Usage.Capacity.{length-prune, length-record_use, length-from_records}
use cosmic_pass.Config.Types.{Preferences, Action, KeyChord, insert, show_chord, action_label}
use cosmic_pass.Config.Validate.{conflict}
use cosmic_pass.Domain.Items.{FieldRef, CacheFile, ItemKey}
use cosmic_pass.Pass.Error.{PassError, Result, ok, err, to_string}
use cosmic_pass.Actions.Rows.{ActionEntry, field_source, totp_source, CopySource}
use cosmic_pass.Search.Index.{Matcher}
use cosmic_pass.State.Types.{RevealTarget, Model, Mode, PendingFetch, Outcome}
use cosmic_pass.State.Query.{actions_of, reveal_target}
use cosmic_pass.State.View.{
  clear_revealed, notify, recompute_results, drop_stale_reveal, install, reselect, replace_items,
}
use cosmic_pass.State.Session.{from_file, load_file}
use cosmic_pass.State.Copy.{
  finish_copy, notified, copy_failed, copy_settled, take_pending, copy_confirmed,
}
use cosmic_pass.State.Reveal.{
  reveal_pinned, reveal_field, reveal_row, toggle_row, was_showing, toggle_in,
}
use cosmic_pass.State.Settings.{apply_prefs, save_prefs, bind_chord, capture_in}
use Prim.Native.String.{◌++◌}
use cosmic_pass.State.Invariant.Accounts.Basics.{
  IsAccounted, request_refresh-IsAccounted, hide-IsAccounted, session_error-IsAccounted,
}

pub copy_settled-IsAccounted :
    (mt : Matcher) (m : Model) (key : ItemKey) (p : PendingFetch) (r : Result String) (now : ℤ)
    → IsAccounted m
    → IsAccounted (copy_settled mt m key p r now).0
unfolding copy_settled copy_failed finish_copy
copy_settled-IsAccounted mt m key p (ok value) now v =
    ground (arith, length-record_use m.usage key now, is_distinct-record_use m.usage key now)
copy_settled-IsAccounted mt m key p (err PassError.cancelled) now v = ground arith
copy_settled-IsAccounted mt m key p (err PassError.not_found) now v =
    ground (arith, request_refresh-IsAccounted (notify m "Item no longer exists").0)
copy_settled-IsAccounted mt m key p (err PassError.field_missing) now v = ground arith
copy_settled-IsAccounted mt m key p (err e) now v =
    ground (arith, session_error-IsAccounted mt (notify m (to_string e)).0 e)

pub take_pending-IsAccounted :
    (mt : Matcher) (m : Model) (o : Option PendingFetch) (key : ItemKey) (r : Result String)
    (now : ℤ)
    → IsAccounted m
    → IsAccounted (take_pending mt m o key r now).0
unfolding take_pending
take_pending-IsAccounted mt m none key r now v = ground arith
take_pending-IsAccounted mt m (some p) key r now v = ground (
  arith,
  copy_settled-IsAccounted mt (record m { view = record (m.view) { pending = none } }) key p r now,
)

pub save_prefs-IsAccounted :
    (u : Unicode) (mt : Matcher) (m : Model) (p : Preferences)
    → IsAccounted m
    → IsAccounted (save_prefs u mt m p).0
unfolding save_prefs apply_prefs recompute_results
save_prefs-IsAccounted u mt m p v = ground arith

pub notified-IsAccounted : (m : Model) (t : String) → IsAccounted m → IsAccounted (notified m t).0
unfolding notify
notified-IsAccounted m t v = ground arith

pub bind_chord-IsAccounted :
    (u : Unicode) (mt : Matcher) (m : Model) (a : Action) (c : KeyChord) (o : Option Action)
    → IsAccounted m
    → IsAccounted (bind_chord u mt m a c o).0
unfolding bind_chord
bind_chord-IsAccounted u mt m a c (some other) v =
    notified-IsAccounted m (show_chord u c ++ " is already used by “" ++ action_label other ++ "”")
      v
bind_chord-IsAccounted u mt m a c none v =
    save_prefs-IsAccounted u mt
      (record m { view = record (m.view) { mode = Mode.preferences none } })
      (record (m.prefs) { shortcuts = insert a c m.prefs.shortcuts })
      (record { owned = v.owned; capped = v.capped; distinct = v.distinct })

pub copy_confirmed-IsAccounted :
    (mt : Matcher) (m : Model) → IsAccounted m → IsAccounted (copy_confirmed mt m).0
unfolding copy_confirmed
copy_confirmed-IsAccounted mt m v = ground (arith, hide-IsAccounted mt m)

pub capture_in-IsAccounted :
    (u : Unicode) (mt : Matcher) (m : Model) (mode : Mode) (c : KeyChord)
    → IsAccounted m
    → IsAccounted (capture_in u mt m mode c).0
unfolding capture_in
capture_in-IsAccounted u mt m (Mode.preferences (some a)) c v =
    bind_chord-IsAccounted u mt m a c (conflict u m.prefs a c) v
capture_in-IsAccounted u mt m (Mode.preferences none) c v = ground arith
capture_in-IsAccounted u mt m Mode.list c v = ground arith
capture_in-IsAccounted u mt m (Mode.actions k i) c v = ground arith

reveal_pinned-IsAccounted :
    (m : Model) (key : ItemKey) (f : FieldRef) (i g : ℕ) (o : Option RevealTarget)
    → IsAccounted m
    → IsAccounted (reveal_pinned m key f i g o).0
unfolding reveal_pinned
reveal_pinned-IsAccounted m key f i g none v = v
reveal_pinned-IsAccounted m key f i g (some t) v = record {
  owned = v.owned;
  capped = v.capped;
  distinct = v.distinct;
}

reveal_row-IsAccounted :
    (m : Model) (key : ItemKey) (e : ActionEntry) (s : CopySource)
    → IsAccounted m
    → IsAccounted (reveal_row m key e s).0
unfolding reveal_row reveal_field
reveal_row-IsAccounted m key e (totp_source name) v = ground arith
reveal_row-IsAccounted m key e (field_source f) v = elim (Option-cases e.field_index) [
  | inl h ↦ rw h (if_keeps {A = Outcome} (λ o. IsAccounted o.0) f.secret v v)
  | inr (i, h) ↦
      let g = (m.next_reveal + 1) % u64_mod in
      let counted : Model = record m { next_reveal = g } in
      rw h (
        if_keeps {A = Outcome} (λ o. IsAccounted o.0) f.secret
          (reveal_pinned-IsAccounted counted key f i g (reveal_target counted key i g)
            (record { owned = v.owned; capped = v.capped; distinct = v.distinct }))
          v)
]

clear_revealed-IsAccounted : (m : Model) → IsAccounted m → IsAccounted (clear_revealed m)
unfolding clear_revealed
clear_revealed-IsAccounted m v = ground arith

toggle_row-IsAccounted :
    (m : Model) (key : ItemKey) (o : Option ActionEntry)
    → IsAccounted m
    → IsAccounted (toggle_row m key o).0
unfolding toggle_row
toggle_row-IsAccounted m key none v = v
toggle_row-IsAccounted m key (some row) v =
    let cleared = clear_revealed-IsAccounted m v in
    if_keeps {A = Outcome} (λ o. IsAccounted o.0) (was_showing m.view.revealed key row row.source)
      cleared (reveal_row-IsAccounted (clear_revealed m) key row row.source cleared)

pub toggle_in-IsAccounted :
    (m : Model) (mode : Mode) → IsAccounted m → IsAccounted (toggle_in m mode).0
unfolding toggle_in
toggle_in-IsAccounted m Mode.list v = v
toggle_in-IsAccounted m (Mode.preferences r) v = v
toggle_in-IsAccounted m (Mode.actions key i) v =
    toggle_row-IsAccounted m key (get_elem? (actions_of m) i) v

pub load_file-IsAccounted :
    (u : Unicode) (mt : Matcher) (m : Model) (f : CacheFile)
    → IsAccounted m
    → IsAccounted (load_file u mt m f).0
unfolding load_file from_file decide replace_items install recompute_results reselect
    drop_stale_reveal
load_file-IsAccounted u mt m f v = ground (
  arith,
  length-from_records f.usage,
  length-prune f.items (from_records f.usage),
  is_distinct-from_records f.usage,
  is_distinct-prune f.items (from_records f.usage),
)
