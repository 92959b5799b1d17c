-- ===== src/Cli/Tests.antt =====
-- src/main.rs: a start in the background.
use cosmic_pass.Base.{◌≡◌, refl, true, some, none}
use cosmic_pass.Base.Int.{pos}
use cosmic_pass.Fixtures.{plain_case, containment, deps}
use cosmic_pass.App.Events.{RemoteAction, unavailable, init}
use cosmic_pass.State.Session.{startup}
use cosmic_pass.Cli.{Command, Cli, run, main}
use cosmic_pass.Cli.Started.{shows_window, main_opens}

abbrev in_background : Cli
in_background = record { background = true; command = none }

runs_in_background : main in_background ≡ run (some RemoteAction.background)
unfolding main
runs_in_background = refl

main_opens_example :
    (init plain_case containment 1000
      (pos 7)
      deps
      3
      unavailable
      (some RemoteAction.background)).0.surface.visible
    ≡ shows_window in_background.background in_background.command
main_opens_example =
    main_opens plain_case containment 1000 (pos 7) deps 3 unavailable in_background
      (some RemoteAction.background) refl runs_in_background

-- A first start with `refresh` opens the window, and so does one with `--background show`.
refresh_opens :
    (init plain_case containment 1000
      (pos 7)
      deps
      3
      unavailable
      (some RemoteAction.refresh)).0.surface.visible
    ≡ true
unfolding init startup
refresh_opens = refl

background_ignored :
    main (record { background = true; command = some Command.show }) ≡ run (some RemoteAction.show)
unfolding main
background_ignored = refl
