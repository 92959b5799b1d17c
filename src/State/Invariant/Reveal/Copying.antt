-- ===== src/State/Invariant/Reveal/Copying.antt =====
-- src/core/state.rs: copying, errors and preferences keep the reveal in its place.
use cosmic_pass.Base.{ℕ, String, Option, some, none, arith, decide, if_keeps}
use cosmic_pass.Base.Int.{ℤ}
use cosmic_pass.Base.Unicode.{Unicode}
use cosmic_pass.Config.Types.{Action, insert, Preferences, KeyChord, prefs_discrete}
use cosmic_pass.Config.Validate.{validated, conflict}
use cosmic_pass.Domain.Items.{ItemSummary, ItemKey, key_discrete}
use cosmic_pass.Pass.Error.{PassError, Result, ok, err, to_string}
use cosmic_pass.Search.Index.{Matcher}
use cosmic_pass.State.Types.{Model, Mode, PendingFetch, Outcome}
use cosmic_pass.Actions.Rows.{CopySource}
use cosmic_pass.State.View.{is_intact, notify}
use cosmic_pass.State.Session.{refresh_failed}
use cosmic_pass.State.Copy.{
  start_copy, copy_with, activate_action, copy_failed, copy_settled, take_pending, copy_finished,
}
use cosmic_pass.Base.{true, ◌≡◌}
use cosmic_pass.State.Invariant.Reveal.Parts.{may_show}
use cosmic_pass.State.Settings.{apply_prefs, save_prefs, bind_chord, capture_in}
use cosmic_pass.State.Invariant.Reveal.Parts.{
  IsMasked, notify-IsMasked, cancel_pending-IsMasked, recompute_results-IsMasked, hide-IsMasked,
  session_error-IsMasked,
}

pub start_copy-IsMasked :
    (m : Model) (key : ItemKey) (s : CopySource) → IsMasked m → IsMasked (start_copy m key s).0
unfolding start_copy is_intact
start_copy-IsMasked m key s v = ground (arith, cancel_pending-IsMasked m v)

pub copy_with-IsMasked :
    (m : Model) (pick : ItemSummary → Option CopySource) (t : String)
    → IsMasked m
    → IsMasked (copy_with m pick t).0
unfolding copy_with is_intact
copy_with-IsMasked m pick t v = ground arith

pub activate_action-IsMasked :
    (m : Model) (i : Option ℕ) → IsMasked m → IsMasked (activate_action m i).0
unfolding activate_action is_intact
activate_action-IsMasked m i v = ground arith

pub copy_failed-IsMasked :
    (mt : Matcher) (m : Model) (e : PassError) → IsMasked m → IsMasked (copy_failed mt m e).0
unfolding copy_failed is_intact
copy_failed-IsMasked mt m e v =
    session_error-IsMasked mt (notify m (to_string e)).0 e (notify-IsMasked m (to_string e) v)

pub copy_settled-IsMasked :
    (mt : Matcher) (m : Model) (key : ItemKey) (p : PendingFetch) (r : Result String) (now : ℤ)
    → IsMasked m
    → IsMasked (copy_settled mt m key p r now).0
unfolding copy_settled is_intact
copy_settled-IsMasked mt m key p (ok value) now v = ground arith
copy_settled-IsMasked mt m key p (err PassError.cancelled) now v = v
copy_settled-IsMasked mt m key p (err PassError.not_found) now v = ground arith
copy_settled-IsMasked mt m key p (err PassError.field_missing) now v = ground arith
copy_settled-IsMasked mt m key p (err e) now v = copy_failed-IsMasked mt m e v

pub take_pending-IsMasked :
    (mt : Matcher) (m : Model) (o : Option PendingFetch) (key : ItemKey) (r : Result String)
    (now : ℤ)
    → IsMasked m
    → IsMasked (take_pending mt m o key r now).0
unfolding take_pending is_intact
take_pending-IsMasked mt m none key r now v = v
take_pending-IsMasked mt m (some p) key r now v =
    if_keeps {A = Outcome} (λ o. IsMasked o.0) (decide (key_discrete p.key key))
      (copy_settled-IsMasked mt (record m { view = record (m.view) { pending = none } }) key p r now
        (record { hidden = v.hidden; pinned = v.pinned; waiting = v.waiting }))
      v

pub refresh_failed-IsMasked :
    (mt : Matcher) (m : Model) (e : PassError) → IsMasked m → IsMasked (refresh_failed mt m e).0
unfolding refresh_failed is_intact
refresh_failed-IsMasked mt m e v =
    session_error-IsMasked mt _ e
      (record { hidden = v.hidden; pinned = v.pinned; waiting = v.waiting })

pub apply_prefs-IsMasked :
    (mt : Matcher) (m : Model) (p : Preferences) → IsMasked m → IsMasked (apply_prefs mt m p)
unfolding apply_prefs is_intact
apply_prefs-IsMasked mt m p v = ground (
  arith,
  recompute_results-IsMasked mt (record m { prefs = p })
      (record { hidden = v.hidden; pinned = v.pinned; waiting = v.waiting }),
)

pub save_prefs-IsMasked :
    (u : Unicode) (mt : Matcher) (m : Model) (p : Preferences)
    → IsMasked m
    → IsMasked (save_prefs u mt m p).0
unfolding save_prefs is_intact
save_prefs-IsMasked u mt m p v =
    if_keeps {A = Outcome} (λ o. IsMasked o.0) (decide (prefs_discrete (validated u p) m.prefs)) v
      (apply_prefs-IsMasked mt m (validated u p) v)

pub bind_chord-IsMasked :
    (u : Unicode) (mt : Matcher) (m : Model) (a : Action) (c : KeyChord) (o : Option Action)
    → may_show (Mode.preferences none) m.view.revealed ≡ true
    → IsMasked m
    → IsMasked (bind_chord u mt m a c o).0
unfolding bind_chord is_intact
bind_chord-IsMasked u mt m a c (some other) h v = notify-IsMasked m _ v
bind_chord-IsMasked u mt m a c none h v =
    save_prefs-IsMasked u mt (record m { view = record (m.view) { mode = Mode.preferences none } })
      (record (m.prefs) { shortcuts = insert a c m.prefs.shortcuts })
      (record { hidden = h; pinned = v.pinned; waiting = v.waiting })

pub capture_in-IsMasked :
    (u : Unicode) (mt : Matcher) (m : Model) (mode : Mode) (c : KeyChord)
    → m.view.mode ≡ mode
    → IsMasked m
    → IsMasked (capture_in u mt m mode c).0
unfolding capture_in
capture_in-IsMasked u mt m (Mode.preferences (some a)) c e v =
    bind_chord-IsMasked u mt m a c (conflict u m.prefs a c) (ground arith) v
capture_in-IsMasked u mt m (Mode.preferences none) c e v = v
capture_in-IsMasked u mt m Mode.list c e v = v
capture_in-IsMasked u mt m (Mode.actions k i) c e v = v

pub copy_finished-IsMasked :
    (mt : Matcher) (m : Model) (f : Option String) → IsMasked m → IsMasked (copy_finished mt m f).0
unfolding copy_finished
copy_finished-IsMasked mt m none v = ground (arith, hide-IsMasked mt m v)
copy_finished-IsMasked mt m (some t) v = notify-IsMasked m "Clipboard unavailable" v
