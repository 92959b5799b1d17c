-- ===== src/Runtime/Tests.antt =====
-- src/runtime.rs: a copy of a password and of a login code.
use cosmic_pass.Base.{◌≡◌, refl, [], ◌∷◌}
use cosmic_pass.Base.Int.{pos}
use cosmic_pass.Config.Defaults.{default_prefs}
use cosmic_pass.Domain.Items.{secret_field}
use cosmic_pass.Fixtures.{deps, plain_case, containment, key}
use cosmic_pass.Pass.Error.{ok}
use cosmic_pass.Actions.Rows.{field_source, is_secret}
use cosmic_pass.State.Types.{new_model}
use cosmic_pass.State.View.{fresh_token, cancel_pending}
use cosmic_pass.State.Clipboard.Parts.{copies}
use cosmic_pass.Runtime.{pick_totp, code_of}
use cosmic_pass.Runtime.Round.{round, copied, value_of, copies-round}

login_code : pick_totp (("Backup", "1") ∷ ("totp", "2") ∷ []) "totp_uri" ≡ ok "2"
unfolding pick_totp code_of
login_code = refl

copies-round_example :
    copies
      (round plain_case containment deps
        (new_model default_prefs)
        (key "a")
        (field_source (secret_field "password" "Password"))
        (pos 5)).1
    ≡ copied
        (value_of deps
          (key "a")
          (field_source (secret_field "password" "Password"))
          (fresh_token (cancel_pending (new_model default_prefs))))
        (is_secret (field_source (secret_field "password" "Password")))
copies-round_example =
    copies-round plain_case containment deps (new_model default_prefs) (key "a")
      (field_source (secret_field "password" "Password")) (pos 5)
