-- ===== src/Runtime/Round.antt =====
-- src/runtime.rs and src/core/state.rs: a copy from the request to the clipboard.
use cosmic_pass.Base.{
  ◌≡◌, refl, ◌∙◌, ap, String, Bool, Option, none, some, List, [], ◌∷◌, decide, arith,
}
use cosmic_pass.Base.Int.{ℤ}
use cosmic_pass.Base.Unicode.{Unicode}
use cosmic_pass.Domain.Items.{ItemKey}
use cosmic_pass.Pass.Error.{Result, ok, err}
use cosmic_pass.Actions.Rows.{CopySource, field_source, totp_source, is_secret}
use cosmic_pass.Search.Index.{Matcher}
use cosmic_pass.State.Types.{Model, Msg, Effect, Token, Outcome}
use cosmic_pass.State.View.{fresh_token, cancel_pending}
use cosmic_pass.State.Copy.{start_copy, fetch_effect}
use cosmic_pass.State.Update.{update}
use cosmic_pass.State.Clipboard.Parts.{copies}
use cosmic_pass.State.Clipboard.{answered, copies-update}
use cosmic_pass.Runtime.{Deps, Step, future, execute, picked}

-- What the reducer makes of a step's answer.
abbrev answer_of : Step → Option Msg
answer_of (future act msg) = msg
answer_of _ = none

abbrev heard : Unicode → Matcher → Model → ℤ → Option Msg → Outcome
heard u mt m now none = (m, [])
heard u mt m now (some msg) = update u mt m msg now

abbrev carried_out : Unicode → Matcher → Deps → ℤ → Model → List Effect → Outcome
carried_out u mt deps now m [] = (m, [])
carried_out u mt deps now m (e ∷ es) = heard u mt m now (answer_of (execute e deps m))

-- A copy is asked for, its effect is carried out, and the reducer hears the answer.
unfoldable pub round : Unicode → Matcher → Deps → Model → ItemKey → CopySource → ℤ → Outcome
unfolding start_copy execute update
round u mt deps m key source now =
    carried_out u mt deps now (start_copy m key source).0 (start_copy m key source).1

-- What the backend gives for a source.
abbrev pub value_of : Deps → ItemKey → CopySource → Token → Result String
value_of deps key (field_source f) cancel = deps.backend.get_field key f.name cancel
value_of deps key (totp_source name) cancel = picked (deps.backend.totp key cancel) name

abbrev pub copied : Result String → Bool → List (String × Bool)
copied (ok value) secret = (value, secret) ∷ []
copied (err e) secret = []

execute-fetch_effect :
    (deps : Deps) (m : Model) (key : ItemKey) (source : CopySource) (cancel : Token)
    → answer_of (execute (fetch_effect key source cancel) deps m)
      ≡ some (Msg.copy_fetched key (value_of deps key source cancel))
unfolding execute fetch_effect
execute-fetch_effect deps m key (field_source f) cancel = refl
execute-fetch_effect deps m key (totp_source name) cancel = refl

own_answer :
    (key : ItemKey) (cancel : Token) (secret : Bool) (r : Result String)
    → answered (some (record { key = key; cancel = cancel; secret = secret })) key r
      ≡ copied r secret
unfolding decide
own_answer key cancel secret (ok value) = ground arith
own_answer key cancel secret (err e) = refl

-- A copy that is asked for and not interrupted puts on the clipboard what the backend gives for its
-- field or its one-time code, as a secret if it is one, and nothing if the backend fails.
pub copies-round :
    (u : Unicode) (mt : Matcher) (deps : Deps) (m : Model) (key : ItemKey) (source : CopySource)
    (now : ℤ)
    → copies (round u mt deps m key source now).1
      ≡ copied (value_of deps key source (fresh_token (cancel_pending m))) (is_secret source)
unfolding round start_copy
copies-round u mt deps m key source now =
    let after = (start_copy m key source).0 in
    let cancel = fresh_token (cancel_pending m) in
    let result = value_of deps key source cancel in
    ap (λ o. copies (heard u mt after now o).1) (execute-fetch_effect deps after key source cancel)
    ∙ copies-update u mt after (Msg.copy_fetched key result) now
    ∙ own_answer key cancel (is_secret source) result
