-- ===== src/App/Popup.antt =====
-- src/app/surface.rs: whether the popup is open, and how long opening it takes. Instants are
-- milliseconds.
use cosmic_pass.Base.{
  ℕ, ◌-◌, String, Bool, true, false, Option, none, some, List, [], ◌∷◌, if◌then◌else◌, ltb,
  is_some_and, map_option,
}
use cosmic_pass.State.Types.{Msg}
use cosmic_pass.Runtime.{Act}

-- What the shell hands to the toolkit.
pub data Task : Type 0 where
  focus_search : Task
  open_surface destroy_surface : (id : ℕ) → Task
  perform : Act → Option Msg → Task
  listen : List Msg → Task
  open_url : String → Task
  snap : (selected last : ℕ) → Task

pub record Surface : Type 0 where
  pub id : ℕ
  pub visible : Bool
  pub last_hide : Option ℕ
  pub pending_show : Option ℕ

-- `Surface::default`, with the id that the toolkit makes.
abbrev pub new_surface : ℕ → Surface
new_surface id = record { id = id; visible = false; last_hide = none; pending_show = none }

abbrev pub toggle_debounce : ℕ
toggle_debounce = 100

unfoldable pub recently_hidden : ℕ → Surface → Bool
recently_hidden at s = is_some_and s.last_hide (λ t. ltb (at - t) toggle_debounce)

unfoldable pub mark_show_requested : ℕ → Surface → Surface
mark_show_requested at s = record s { pending_show = some at }

-- `Instant::saturating_duration_since`, of the instant that is taken.
unfoldable pub take_open_latency : ℕ → Surface → Surface × Option ℕ
take_open_latency at s =
    (record s { pending_show = none }, map_option (λ asked. at - asked) s.pending_show)

-- Whether a new surface is asked for.
unfoldable pub begin_show : Surface → Surface × Bool
begin_show s =
    if s.visible
    then (record s { pending_show = none }, false)
    else (record s { visible = true }, true)

abbrev opened : Surface × Bool → Surface × List Task
opened (s, false) = (s, focus_search ∷ [])
opened (s, true) = (s, open_surface s.id ∷ focus_search ∷ [])

-- `Surface::show`.
unfoldable pub show : Surface → Surface × List Task
unfolding begin_show
show s = opened (begin_show s)

-- `Surface::hide`.
unfoldable pub hide : ℕ → Surface → Surface × List Task
hide at s =
    if s.visible
    then (
      record s { visible = false; last_hide = some at; pending_show = none },
      destroy_surface s.id ∷ [],
    )
    else (s, [])
