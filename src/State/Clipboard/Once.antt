-- ===== src/State/Clipboard/Once.antt =====
-- src/core/state.rs: a fetch is answered once.
use cosmic_pass.Base.{
  String, Option, none, some, [], ◌≡◌, refl, decide, arith, false, Bool-cases, inl, inr, ◌∙◌, ap,
}
use cosmic_pass.Base.Int.{ℤ}
use cosmic_pass.Base.Unicode.{Unicode}
use cosmic_pass.Domain.Items.{ItemKey, key_discrete}
use cosmic_pass.Pass.Error.{PassError, Result, ok, err, to_string}
use cosmic_pass.Search.Index.{Matcher}
use cosmic_pass.State.Types.{Model, Msg, PendingFetch}
use cosmic_pass.State.View.{notify, request_refresh}
use cosmic_pass.State.Session.{session_error, clear_data, wipe}
use cosmic_pass.State.Copy.{finish_copy, copy_failed, copy_settled, take_pending, copy_fetched}
use cosmic_pass.State.Update.{update}
use cosmic_pass.State.Clipboard.{copies-update, answered}
use cosmic_pass.State.Clipboard.Parts.{copies}

pending-session_error :
    (mt : Matcher) (m : Model) (e : PassError)
    → (session_error mt m e).0.view.pending ≡ m.view.pending
unfolding session_error clear_data wipe
pending-session_error mt m PassError.signed_out = ground arith
pending-session_error mt m _ = ground arith

pending-copy_settled :
    (mt : Matcher) (m : Model) (key : ItemKey) (p : PendingFetch) (r : Result String) (now : ℤ)
    → (copy_settled mt m key p r now).0.view.pending ≡ m.view.pending
unfolding copy_settled copy_failed finish_copy notify request_refresh
pending-copy_settled mt m key p (ok value) now = refl
pending-copy_settled mt m key p (err PassError.cancelled) now = refl
pending-copy_settled mt m key p (err PassError.not_found) now = ground arith
pending-copy_settled mt m key p (err PassError.field_missing) now = refl
pending-copy_settled mt m key p (err e) now = pending-session_error mt (notify m (to_string e)).0 e

-- An item whose fetch was answered has no answer left to take.
answered-none : (key : ItemKey) (r : Result String) → answered none key r ≡ []
answered-none key (ok v) = refl
answered-none key (err e) = refl

answered-other :
    (p : PendingFetch) (key : ItemKey) (r : Result String)
    → decide (key_discrete p.key key) ≡ false
    → answered (some p) key r ≡ []
answered-other p key (ok v) h = rw h refl
answered-other p key (err e) h = refl

answered_after :
    (mt : Matcher) (m : Model) (o : Option PendingFetch) (key : ItemKey) (r again : Result String)
    (now : ℤ)
    → m.view.pending ≡ o
    → answered (take_pending mt m o key r now).0.view.pending key again ≡ []
unfolding take_pending
answered_after mt m none key r again now h =
    ap (λ o. answered o key again) h ∙ answered-none key again
answered_after mt m (some p) key r again now h =
    elim (Bool-cases (decide (key_discrete p.key key))) [
      | inl e ↦ rw e (
          ap (λ o. answered o key again)
            (pending-copy_settled mt (record m { view = record (m.view) { pending = none } }) key p
              r now)
          ∙ answered-none key again)
      | inr e ↦ rw e (ap (λ o. answered o key again) h ∙ answered-other p key again e)
    ]

-- Of two answers for one item, one directly after the other, the second puts nothing on the clipboard,
-- whatever the first was and whether it was waited for.
pub copies-update_again :
    (u : Unicode) (mt : Matcher) (m : Model) (key : ItemKey) (r again : Result String)
    (now later : ℤ)
    → copies
        (update u mt
          (update u mt m (Msg.copy_fetched key r) now).0
          (Msg.copy_fetched key again)
          later).1
      ≡ []
unfolding update copy_fetched
copies-update_again u mt m key r again now later =
    copies-update u mt (update u mt m (Msg.copy_fetched key r) now).0 (Msg.copy_fetched key again)
      later
    ∙ answered_after mt m m.view.pending key r again now refl
