-- ===== src/Testing/Harness.antt =====
-- src/testing.rs: the harness, which updates the model and runs its effects against the fakes. An effect
-- that answers is a task until it is joined; tasks are joined in any order.
use cosmic_pass.Base.{
  ℕ, zero, suc, String, Bool, true, false, ◌&&◌, Option, none, some, List, [], ◌∷◌, ◌++◌, any, ◌==◌,
  map_option, and_then, get_elem?,
}
use cosmic_pass.Base.Int.{ℤ, pos, ◌+ℤ◌}
use cosmic_pass.Base.Unicode.{Unicode}
use cosmic_pass.Config.Types.{Preferences}
use cosmic_pass.Config.Defaults.{default_prefs}
use cosmic_pass.Clipboard.{error_text}
use cosmic_pass.Domain.Items.{ItemSummary}
use cosmic_pass.Search.Index.{Matcher, ResultRow}
use cosmic_pass.State.Types.{Model, Msg, Effect, Token, new_model}
use cosmic_pass.State.Update.{update}
use cosmic_pass.Runtime.{
  Backend, Deps, Step, show_window, hide_window, future, stream, unhandled, execute,
}
use cosmic_pass.Testing.{
  BackendState, list_all, get_field, totp, login, FakeClipboard, no_copies, copy,
}

-- An effect whose answer is awaited, with the model that it was started on.
abbrev pub Task : Type 0
Task = Effect × Model

pub record Harness : Type 0 where
  pub model : Model
  pub backend : BackendState
  pub clipboard : FakeClipboard
  pub tasks : List Task
  pub visible : Bool
  pub persisted : ℕ
  pub cache_deletions : ℕ
  pub preference_saves : ℕ
  pub messages : List Msg
  pub now : ℤ
  pub unhandled : List Effect

unfoldable pub with_prefs : BackendState → Preferences → Harness
with_prefs backend prefs = record {
  model = new_model prefs;
  backend = backend;
  clipboard = no_copies;
  tasks = [];
  visible = false;
  persisted = 0;
  cache_deletions = 0;
  preference_saves = 0;
  messages = [];
  now = pos 1000000;
  unhandled = [];
}

abbrev pub new : BackendState → Harness
new backend = with_prefs backend default_prefs

abbrev pub advance : ℤ → Harness → Harness
advance secs h = record h { now = h.now +ℤ secs }

-- What the fakes answer, given which of the tokens are cancelled before a delay is over.
unfoldable pub answers_of : BackendState → (Token → Bool) → Backend
unfolding get_field totp
answers_of s cut = record {
  account = s.account;
  version = s.version;
  list_all = (list_all s).0;
  get_field = λ key field cancel. (get_field s (cut cancel) key field).0;
  totp = λ key cancel. (totp s (cut cancel) key).0;
  login = (login s).0;
}

unfoldable pub deps_of : Harness → (Token → Bool) → Deps
unfolding answers_of copy
deps_of h cut = record {
  backend = answers_of h.backend cut;
  clipboard = λ value secret secs. map_option error_text (copy h.clipboard value secret secs).0;
  cache = none;
  save_preferences = false;
}

abbrev pub stepped : Harness → Effect → Step → Harness
stepped h e show_window = record h { visible = true }
stepped h e hide_window = record h { visible = false }
stepped h e (future act answer) = record h { tasks = h.tasks ++ (e, h.model) ∷ [] }
stepped h e (stream msgs) = record h { tasks = h.tasks ++ (e, h.model) ∷ [] }
stepped h e (unhandled e') = record h { unhandled = h.unhandled ++ e' ∷ [] }

unfoldable pub start_effect : Harness → Effect → Harness
unfolding execute deps_of
start_effect h Effect.persist = record h { persisted = suc h.persisted }
start_effect h Effect.delete_cache = record h { cache_deletions = suc h.cache_deletions }
start_effect h Effect.load_cache = h
start_effect h (Effect.save_preferences prefs) = record h {
  preference_saves = suc h.preference_saves;
}
start_effect h (Effect.expire_notice id) = h
start_effect h e = stepped h e (execute e (deps_of h (λ t. false)) h.model)

unfoldable pub start_effects : Harness → List Effect → Harness
unfolding start_effect
start_effects h [] = h
start_effects h (e ∷ es) = start_effects (start_effect h e) es

unfoldable pub send_no_wait : Unicode → Matcher → Msg → Harness → Harness
unfolding start_effects
send_no_wait u mt msg h =
    let (m, fx) = update u mt h.model msg h.now in
    start_effects (record h { model = m; messages = h.messages ++ msg ∷ [] }) fx

unfoldable pub send_all : Unicode → Matcher → List Msg → Harness → Harness
unfolding send_no_wait
send_all u mt [] h = h
send_all u mt (msg ∷ msgs) h = send_all u mt msgs (send_no_wait u mt msg h)

abbrev pub messages_of : Step → List Msg
messages_of (future act (some msg)) = msg ∷ []
messages_of (stream msgs) = msgs
messages_of _ = []

-- What an effect leaves of the fakes: the calls are counted, the copies are recorded.
unfoldable pub called : Effect → BackendState → BackendState
unfolding get_field totp
called Effect.refresh s = (list_all s).1
called (Effect.fetch_and_copy key field secret cancel) s = (get_field s false key field).1
called (Effect.fetch_totp_and_copy key field cancel) s = (totp s false key).1
called Effect.start_login s = (login s).1
called (Effect.fetch_reveal key field index generation cancel) s = (get_field s false key field).1
called (Effect.fetch_totp key cancel) s = (totp s false key).1
called e s = s

unfoldable pub recorded : Task → FakeClipboard → FakeClipboard
unfolding copy
recorded (Effect.copy value secret, m) c = (copy c value secret m.prefs.clipboard_clear_secs).1
recorded (e, m) c = c

-- A call is cut off only if its token is cancelled.
unfoldable pub is_cut : Harness → (Token → Bool) → Token → Bool
is_cut h early t = any (λ c. c == t) h.model.tokens.cancelled && early t

unfoldable pub removed : {A : Type 0} → List A → ℕ → List A
removed [] i = []
removed (a ∷ xs) zero = xs
removed (a ∷ xs) (suc i) = a ∷ removed xs i

-- A task ends: its messages, and the harness without it.
unfoldable pub ended : (Token → Bool) → ℕ → Harness → Option Task → List Msg × Harness
unfolding execute deps_of is_cut removed called recorded
ended early i h none = ([], h)
ended early i h (some (e, m)) = (
  messages_of (execute e (deps_of h (is_cut h early)) m),
  record h {
    tasks = removed h.tasks i;
    backend = called e h.backend;
    clipboard = recorded (e, m) h.clipboard;
  },
)

-- A round of `settle`: the task at a position is the next to end.
unfoldable pub join : Unicode → Matcher → (Token → Bool) → ℕ → Harness → Harness
unfolding ended send_all
join u mt early i h =
    let (msgs, after) = ended early i h (get_elem? h.tasks i) in send_all u mt msgs after

abbrev pub has_settled : Harness → List Task → Option Harness → Option Harness
has_settled h [] later = some h
has_settled h (task ∷ tasks) later = later

-- `settle`, over the order in which tasks end; none, if tasks are left after it.
unfoldable pub settle : Unicode → Matcher → List ((Token → Bool) × ℕ) → Harness → Option Harness
unfolding join
settle u mt [] h = has_settled h h.tasks none
settle u mt ((early, i) ∷ order) h = has_settled h h.tasks (settle u mt order (join u mt early i h))

abbrev pub send : Unicode → Matcher → List ((Token → Bool) × ℕ) → Msg → Harness → Option Harness
send u mt order msg h = settle u mt order (send_no_wait u mt msg h)

-- `result_ids`, which panics on a row that is no item's.
abbrev id_of : List ItemSummary → ResultRow → Option String
id_of items r = map_option (λ (i : ItemSummary). i.key.item) (get_elem? items r.item)

unfoldable pub ids_of : List ItemSummary → List ResultRow → Option (List String)
ids_of items [] = some []
ids_of items (r ∷ rows) =
    and_then (id_of items r) (λ id. map_option (λ ids. id ∷ ids) (ids_of items rows))

unfoldable pub result_ids : Harness → Option (List String)
unfolding ids_of
result_ids h = ids_of h.model.data_state.items h.model.view.results
