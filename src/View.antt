-- ===== src/View.antt =====
-- src/app/view: what the panes say. Drawing is the toolkit's.
mod Tests
pub mod Titles
pub mod Spread
pub mod Rows
pub mod Hints
pub mod Panes
pub mod Presses
pub mod Unrevealed
use cosmic_pass.Base.{
  ℕ, String, Bool, true, false, Option, none, some, List, [], ◌∷◌, ◌++◌, if◌then◌else◌, is_some_and,
  ◌==◌, map,
}
use cosmic_pass.Base.Decimal.{show_decimal}
use cosmic_pass.Base.Unicode.{Unicode}
use cosmic_pass.Config.Types.{Action, rank, action_label, all_of_them, show_chord}
use cosmic_pass.Config.Validate.{chord}
use cosmic_pass.Domain.Items.{ItemKind}
use cosmic_pass.State.Types.{SessionState, Mode, Model, Notice}
use cosmic_pass.State.Query.{stale_notice}
use Prim.Native.String.{◌++◌ as text_append}

pub data Pane : Type 0 where
  actions : ℕ → Pane
  preferences list : Pane

-- The pane of a mode.
abbrev pub pane : Mode → Pane
pane (Mode.actions key selected) = Pane.actions selected
pane (Mode.preferences rebinding) = Pane.preferences
pane Mode.list = Pane.list

abbrev pub line : Option String → List String
line none = []
line (some text) = text ∷ []

abbrev pub notice_text : Option Notice → Option String
notice_text none = none
notice_text (some n) = some n.text

-- The caption lines under a header: the warning, why the data may be old, and the notice.
unfoldable pub notices : Model → List String
unfolding stale_notice
notices m = line m.cli_warning ++ line (stale_notice m) ++ line (notice_text m.view.notice)

-- What the list says in place of results.
unfoldable pub empty_list_message : Model → String
empty_list_message m = elim m.data_state.items [
  | [] ↦ if m.data_state.refreshing then "Loading items…" else "No items found"
  | item ∷ items ↦ "No items found"
]

abbrev pub icon_name : ItemKind → String
icon_name ItemKind.login = "dialog-password-symbolic"
icon_name ItemKind.note = "x-office-document-symbolic"
icon_name ItemKind.credit_card = "payment-card-symbolic"
icon_name ItemKind.identity = "contact-new-symbolic"
icon_name ItemKind.alias = "mail-forward-symbolic"
icon_name ItemKind.wifi = "network-wireless-symbolic"
icon_name ItemKind.ssh_key = "utilities-terminal-symbolic"
icon_name ItemKind.custom = "emblem-documents-symbolic"
icon_name (ItemKind.unknown name) = "emblem-documents-symbolic"

-- The icon, the title and the detail of the panel that stands in for the list, if one does.
unfoldable pub panel_text : Model → SessionState → Option (String × String × String)
panel_text m SessionState.signed_out =
    some (
      "system-lock-screen-symbolic", "Not signed in",
      "Sign in to Proton Pass to search your items.",
    )
panel_text m SessionState.logging_in =
    some (
      "view-refresh-symbolic", "Waiting for browser sign-in…", "Finish signing in in your browser.",
    )
panel_text m SessionState.locked = some (
  "system-lock-screen-symbolic", "Session locked",
  "Run `pass-cli session unlock` in a terminal, then try again.",
)
panel_text m SessionState.cli_missing = some (
  "dialog-warning-symbolic", "pass-cli is not installed",
  "COSMIC Pass needs the Proton Pass command-line tool.",
)
panel_text m (SessionState.error message) =
    some ("dialog-warning-symbolic", "Something went wrong", message)
panel_text m SessionState.checking = elim m.data_state.items [
  | [] ↦ some ("view-refresh-symbolic", "Checking Proton Pass…", "")
  | item ∷ items ↦ none
]
panel_text m SessionState.unknown = none
panel_text m (SessionState.signed_in account) = none

-- The editor of the preferences: the action that is being bound, and what its button says.
abbrev rebinding_of : Mode → Option Action
rebinding_of (Mode.preferences rebinding) = rebinding
rebinding_of _ = none

unfoldable pub rebind_label : Unicode → Model → Action → String
unfolding chord show_chord rank
rebind_label u m action =
    if is_some_and (rebinding_of m.view.mode) (λ a. rank a == rank action)
    then "Press keys… (Esc to cancel)"
    else show_chord u (chord m.prefs action)

unfoldable pub rebind_labels : Unicode → Model → List (String × String)
unfolding rebind_label action_label
rebind_labels u m = map (λ a. (action_label a, rebind_label u m a)) all_of_them

unfoldable pub timeout_text : Model → String
unfolding show_decimal
timeout_text m = text_append (show_decimal m.prefs.clipboard_clear_secs) " s"
