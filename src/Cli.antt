-- ===== src/Cli.antt =====
-- src/cli.rs and src/main.rs: what a command line asks for. Its words are parsed by clap.
mod Tests
pub mod Started
use cosmic_pass.Base.{ℕ, Bool, true, false, Option, none, some, if◌then◌else◌}
use cosmic_pass.App.Events.{RemoteAction}

pub data Command : Type 0 where
  show hide refresh : Command
  clipboard_serve : (timeout : ℕ) (secret : Bool) → Command

pub record Cli : Type 0 where
  pub background : Bool
  pub command : Option Command

-- What `main` does: it serves the clipboard, or runs the application with an action.
pub data Launch : Type 0 where
  serve : (timeout : ℕ) (secret : Bool) → Launch
  run : Option RemoteAction → Launch

abbrev launch_of : Bool → Option Command → Launch
launch_of background (some (clipboard_serve timeout secret)) = serve timeout secret
launch_of background (some show) = run (some RemoteAction.show)
launch_of background (some hide) = run (some RemoteAction.hide)
launch_of background (some refresh) = run (some RemoteAction.refresh)
launch_of background none = run (if background then some RemoteAction.background else none)

-- `main`.
unfoldable pub main : Cli → Launch
main cli = launch_of cli.background cli.command
