-- ===== src/State/Clipboard/Parts.antt =====
-- src/core/state.rs: the handlers that put nothing on the clipboard.
use cosmic_pass.Base.{Bool, ℕ, ◌≡◌, refl, String, Option, some, none, List, [], ◌∷◌, arith}
use cosmic_pass.Base.Int.{ℤ}
use cosmic_pass.Base.Unicode.{Unicode}
use cosmic_pass.Config.Types.{Preferences, Action, KeyChord, insert, show_chord, action_label}
use cosmic_pass.Config.Validate.{conflict}
use cosmic_pass.Domain.Items.{CacheFile, AccountId, ItemKey, ItemSummary}
use cosmic_pass.Pass.Error.{PassError, Result}
use cosmic_pass.Actions.Rows.{CopySource}
use cosmic_pass.Search.Index.{Matcher}
use cosmic_pass.State.Types.{Model, Effect, Mode, Outcome}
use cosmic_pass.State.View.{
  notify, leave_mode, cancel_pending, recompute_results, put_away, hide, request_refresh, show,
  move_selection,
}
use cosmic_pass.State.Session.{load_file, session_error, signed_in}
use cosmic_pass.State.Copy.{notified, start_copy, copy_with, activate_action, copy_confirmed}
use cosmic_pass.State.Reveal.{toggle_in, reveal_fetched, totp_fetched, tick}
use cosmic_pass.State.Settings.{apply_prefs, save_prefs, bind_chord, capture_in}
use Prim.Native.String.{◌++◌}

-- The values that a list of effects puts on the clipboard, each with whether it is secret.
abbrev pub copies : List Effect → List (String × Bool)
copies [] = []
copies (Effect.copy value secret ∷ fx) = (value, secret) ∷ copies fx
copies (_ ∷ fx) = copies fx

-- Nothing is put on the clipboard.
abbrev pub IsSilent : Outcome → Type 0
IsSilent o = copies o.1 ≡ []

pub request_refresh-IsSilent : (m : Model) → IsSilent (request_refresh m)
unfolding request_refresh
request_refresh-IsSilent m = ground arith

pub show-IsSilent : (m : Model) (now : ℤ) → IsSilent (show m now)
unfolding show request_refresh
show-IsSilent m now = ground arith

pub hide-IsSilent : (mt : Matcher) (m : Model) → IsSilent (hide mt m)
unfolding hide recompute_results put_away leave_mode cancel_pending
hide-IsSilent mt m = ground arith

pub session_error-IsSilent :
    (mt : Matcher) (m : Model) (e : PassError) → IsSilent (session_error mt m e)
unfolding session_error
session_error-IsSilent mt m PassError.signed_out = refl
session_error-IsSilent mt m _ = ground arith

pub signed_in-IsSilent : (mt : Matcher) (m : Model) (a : AccountId) → IsSilent (signed_in mt m a)
unfolding signed_in request_refresh
signed_in-IsSilent mt m a = ground arith

pub copy_with-IsSilent :
    (m : Model) (pick : ItemSummary → Option CopySource) (t : String)
    → IsSilent (copy_with m pick t)
unfolding copy_with
copy_with-IsSilent m pick t = ground arith

pub move_selection-IsSilent : (m : Model) (d : ℤ) → IsSilent (move_selection m d)
unfolding move_selection
move_selection-IsSilent m d = ground arith

pub reveal_fetched-IsSilent :
    (m : Model) (key : ItemKey) (i g : ℕ) (r : Result String)
    → IsSilent (reveal_fetched m key i g r)
unfolding reveal_fetched
reveal_fetched-IsSilent m key i g r = ground arith

pub totp_fetched-IsSilent :
    (m : Model) (key : ItemKey) (r : Result (List (String × String))) (now : ℤ)
    → IsSilent (totp_fetched m key r now)
unfolding totp_fetched
totp_fetched-IsSilent m key r now = ground arith

pub tick-IsSilent : (m : Model) (now : ℤ) → IsSilent (tick m now)
unfolding tick
tick-IsSilent m now = ground arith

pub start_copy-IsSilent :
    (m : Model) (key : ItemKey) (s : CopySource) → IsSilent (start_copy m key s)
unfolding start_copy
start_copy-IsSilent m key s = ground arith

pub activate_action-IsSilent : (m : Model) (i : Option ℕ) → IsSilent (activate_action m i)
unfolding activate_action
activate_action-IsSilent m i = ground arith

pub save_prefs-IsSilent :
    (u : Unicode) (mt : Matcher) (m : Model) (p : Preferences) → IsSilent (save_prefs u mt m p)
unfolding save_prefs apply_prefs recompute_results
save_prefs-IsSilent u mt m p = ground arith

pub notified-IsSilent : (m : Model) (t : String) → IsSilent (notified m t)
unfolding notify
notified-IsSilent m t = ground arith

pub bind_chord-IsSilent :
    (u : Unicode) (mt : Matcher) (m : Model) (a : Action) (c : KeyChord) (o : Option Action)
    → IsSilent (bind_chord u mt m a c o)
unfolding bind_chord
bind_chord-IsSilent u mt m a c (some other) =
    notified-IsSilent m (show_chord u c ++ " is already used by “" ++ action_label other ++ "”")
bind_chord-IsSilent u mt m a c none =
    save_prefs-IsSilent u mt (record m { view = record (m.view) { mode = Mode.preferences none } })
      (record (m.prefs) { shortcuts = insert a c m.prefs.shortcuts })

pub copy_confirmed-IsSilent : (mt : Matcher) (m : Model) → IsSilent (copy_confirmed mt m)
unfolding copy_confirmed
copy_confirmed-IsSilent mt m = ground (arith, hide-IsSilent mt m)

pub capture_in-IsSilent :
    (u : Unicode) (mt : Matcher) (m : Model) (mode : Mode) (c : KeyChord)
    → IsSilent (capture_in u mt m mode c)
unfolding capture_in
capture_in-IsSilent u mt m (Mode.preferences (some a)) c =
    bind_chord-IsSilent u mt m a c (conflict u m.prefs a c)
capture_in-IsSilent u mt m (Mode.preferences none) c = ground arith
capture_in-IsSilent u mt m Mode.list c = ground arith
capture_in-IsSilent u mt m (Mode.actions k i) c = ground arith

pub toggle_in-IsSilent : (m : Model) (mode : Mode) → IsSilent (toggle_in m mode)
unfolding toggle_in
toggle_in-IsSilent m Mode.list = ground arith
toggle_in-IsSilent m (Mode.preferences r) = ground arith
toggle_in-IsSilent m (Mode.actions key i) = ground arith

pub load_file-IsSilent :
    (u : Unicode) (mt : Matcher) (m : Model) (f : CacheFile) → IsSilent (load_file u mt m f)
unfolding load_file
load_file-IsSilent u mt m f = ground arith
