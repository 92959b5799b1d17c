-- ===== src/State/Invariant/Reveal/Parts.antt =====
-- The parts of the reducer that change the view and the session keep the reveal in its place.
use cosmic_pass.Base.{Bool, false, refl, ◌≡◌, String, true, Option, some, none, arith, map_option}
use cosmic_pass.Base.Int.{ℤ}
use cosmic_pass.Base.Unicode.{Unicode}
use cosmic_pass.Domain.Items.{Listing, CacheFile, AccountId}
use cosmic_pass.Pass.Error.{PassError, Result, ok, err}
use cosmic_pass.Search.Index.{Matcher}
use cosmic_pass.State.Types.{Revealed, Token, Mode, SessionState, Model}
use cosmic_pass.State.Query.{selected_item}
use cosmic_pass.State.View.{
  is_intact, notify, clear_revealed, leave_mode, cancel_pending, recompute_results, hide,
  request_refresh, show, move_selection, drop_stale_reveal, replace_items, reselect, install,
  put_away,
}
use cosmic_pass.State.Session.{
  wipe, clear_data, session_error, signed_in, from_file, load_file, session_probed,
}

abbrev is_masked : Revealed → Bool
is_masked Revealed.nothing = true
is_masked (Revealed.field target value) = false
is_masked (Revealed.totp code fetching) = false

-- Whether a mode may show what is revealed: only the action list shows anything.
abbrev pub may_show : Mode → Revealed → Bool
may_show Mode.list r = is_masked r
may_show (Mode.preferences rebinding) r = is_masked r
may_show (Mode.actions key selected) r = true

-- Whether a revealed field is one that the loaded item still has, unedited, at that position.
abbrev pub is_pinned : Model → Revealed → Bool
is_pinned m Revealed.nothing = true
is_pinned m (Revealed.field target value) = is_intact m target
is_pinned m (Revealed.totp code fetching) = true

-- Whether a token of the reveal belongs to a field whose value has not arrived.
abbrev pub is_awaiting : Option Token → Revealed → Bool
is_awaiting none r = true
is_awaiting (some t) (Revealed.field target none) = true
is_awaiting (some t) (Revealed.field target (some value)) = false
is_awaiting (some t) Revealed.nothing = false
is_awaiting (some t) (Revealed.totp code fetching) = false

pub record IsMasked (m : Model) : Type 0 where
  pub hidden : may_show m.view.mode m.view.revealed ≡ true
  pub pinned : is_pinned m m.view.revealed ≡ true
  pub waiting : is_awaiting m.view.reveal_cancel m.view.revealed ≡ true

pub clear_revealed-IsMasked : (m : Model) → IsMasked m → IsMasked (clear_revealed m)
unfolding clear_revealed
clear_revealed-IsMasked m v = ground arith

pub notify-IsMasked : (m : Model) (t : String) → IsMasked m → IsMasked (notify m t).0
unfolding notify is_intact
notify-IsMasked m t v = ground arith

pub cancel_pending-IsMasked : (m : Model) → IsMasked m → IsMasked (cancel_pending m)
unfolding cancel_pending is_intact
cancel_pending-IsMasked m v = ground arith

pub request_refresh-IsMasked : (m : Model) → IsMasked m → IsMasked (request_refresh m).0
unfolding request_refresh is_intact
request_refresh-IsMasked m v = ground arith

pub recompute_results-IsMasked :
    (mt : Matcher) (m : Model) → IsMasked m → IsMasked (recompute_results mt m)
unfolding recompute_results is_intact
recompute_results-IsMasked mt m v = ground arith

pub leave_mode-IsMasked : (m : Model) → IsMasked m → IsMasked (leave_mode m)
unfolding leave_mode
leave_mode-IsMasked m v = ground arith

-- Loading items drops a reveal that they no longer carry, whatever was revealed before.
pub drop_stale_reveal-IsMasked :
    (m : Model)
    → may_show m.view.mode m.view.revealed ≡ true
    → is_awaiting m.view.reveal_cancel m.view.revealed ≡ true
    → IsMasked (drop_stale_reveal m)
unfolding drop_stale_reveal
drop_stale_reveal-IsMasked m h w = ground arith

pub replace_items-IsMasked :
    (u : Unicode) (mt : Matcher) (m : Model) (l : Listing)
    → IsMasked m
    → IsMasked (replace_items u mt m l)
unfolding replace_items install recompute_results reselect
replace_items-IsMasked u mt m l v =
    drop_stale_reveal-IsMasked
      (reselect (recompute_results mt (install u m l)) (map_option (λ i. i.key) (selected_item m)))
      v.hidden v.waiting

pub hide-IsMasked : (mt : Matcher) (m : Model) → IsMasked m → IsMasked (hide mt m).0
unfolding hide put_away
hide-IsMasked mt m v =
    recompute_results-IsMasked mt (put_away m)
      (record { hidden = refl; pinned = refl; waiting = refl })

pub show-IsMasked : (m : Model) (now : ℤ) → IsMasked m → IsMasked (show m now).0
unfolding show is_intact
show-IsMasked m now v = ground arith

pub move_selection-IsMasked : (m : Model) (d : ℤ) → IsMasked m → IsMasked (move_selection m d).0
unfolding move_selection
move_selection-IsMasked m d v = ground arith

pub clear_data-IsMasked : (mt : Matcher) (m : Model) → IsMasked (clear_data mt m)
unfolding clear_data wipe
clear_data-IsMasked mt m = recompute_results-IsMasked mt (wipe m) (ground arith)

pub session_error-IsMasked :
    (mt : Matcher) (m : Model) (e : PassError) → IsMasked m → IsMasked (session_error mt m e).0
unfolding session_error is_intact
session_error-IsMasked mt m PassError.signed_out v =
    clear_data-IsMasked mt (record m { session = SessionState.signed_out })
session_error-IsMasked mt m _ v = ground arith

pub signed_in-IsMasked :
    (mt : Matcher) (m : Model) (a : AccountId) → IsMasked m → IsMasked (signed_in mt m a).0
unfolding signed_in is_intact
signed_in-IsMasked mt m a v = ground (arith, clear_data-IsMasked mt m)

pub load_file-IsMasked :
    (u : Unicode) (mt : Matcher) (m : Model) (f : CacheFile)
    → IsMasked m
    → IsMasked (load_file u mt m f).0
unfolding load_file from_file is_intact
load_file-IsMasked u mt m f v = ground (
  arith,
  replace_items-IsMasked u mt (from_file m f) (record { vaults = f.vaults; items = f.items })
      (record { hidden = v.hidden; pinned = v.pinned; waiting = v.waiting }),
)

pub session_probed-IsMasked :
    (mt : Matcher) (m : Model) (r : Result AccountId)
    → IsMasked m
    → IsMasked (session_probed mt m r).0
unfolding session_probed is_intact
session_probed-IsMasked mt m (ok a) v = signed_in-IsMasked mt m a v
session_probed-IsMasked mt m (err e) v = ground (arith, session_error-IsMasked mt m e v)
