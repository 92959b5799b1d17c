-- ===== src/Lib.antt =====
-- cosmic-pass: a launcher that searches Proton Pass items and copies their fields.
--
-- The program keeps all of its state in one model and changes it in one reducer, `Model::update` of
-- src/core/state.rs, which answers each message with effects that the runtime carries out. This
-- library translates that reducer, its data and the components that it calls, as functions that can
-- be run, and proves what holds of every message or of every run.
--
-- Parts, and how they interact:
--   * Base: shared names, Boolean tests, lists, a stable `sort_by`, texts, decimal numbers, `i64` with
--     its saturation (Base/Int), and the turning round of comparisons (Base/Orders, Base/TextOrder).
--   * Domain: src/model.rs (Items: accounts, keys, vaults, items, fields, usage records, the cache
--     file) and src/core/version.rs (Version: the warning about an old pass-cli).
--   * Pass/Error: src/pass/error.rs, the errors, their classification and their texts.
--   * Config: src/config.rs. Types has actions, chords and the map of shortcuts, Defaults the default
--     chords, Validate `validated`, `chord`, `action_for` and `conflict`, Stored the reading of a stored
--     map of shortcuts.
--   * Usage/Table: src/core/usage.rs, the table of uses with its eviction.
--   * Actions/Rows: src/core/actions.rs, what can be copied from an item and the action list.
--   * Search/Index: src/core/search.rs, the index and `SearchIndex::search`.
--   * Totp: src/core/totp.rs, the countdown of a one-time code.
--   * State: src/core/state.rs and src/core/effects.rs. Types has the model, messages and effects;
--     Query the functions that only read; View the rows, selection, notices and masking; Session
--     signing in and out, loading and errors; Copy the way from a request to the clipboard; Reveal the
--     unmasking of fields and codes; Settings the preferences; Update `Model::update` and its runs.
--   * Keys: src/app/keys.rs, from key presses to messages.
--   * Domain/Timestamp: `parse_timestamp` of src/model.rs; Domain/Calendar has the calendar that it is
--     compared with.
--   * Pass/Parse: src/pass/parse.rs. Raw has the shape of an item, Visitors the maps that name a kind,
--     Fields and Fill the way of each kind's members into a summary, Output the answers of the commands
--     and `dedupe_selectors`.
--   * Pass/Backend: src/pass/backend.rs, the command lines and the operations over a runner.
--     Pass/Runner: src/pass/runner.rs, a run over what happens at each of its waits; Runner/Gates counts
--     the calls that stand at each wait, for the permits and the guard of the first run.
--   * Cache: src/cache. Crypto has the envelope, KeyStore the stores of the key, Store loading, saving and
--     deleting, Debounce the queue in front of it as a step relation.
--   * Clipboard: src/clipboard, the helper that holds a selection; Jobs the owner of the helpers.
--   * Runtime: src/runtime.rs, from the reducer's effects to calls and the messages that answer them.
--   * View: src/app/view, what the panes say: Titles the runs of a title, Rows the rows of the action
--     list, Panes the widgets of each pane with the messages that they send.
--   * App: src/app/mod.rs and src/app/surface.rs, the shell between the window and the reducer. Popup has
--     the surface, Labels the names in the log, Events what comes from outside: the start, D-Bus, keys.
--   * Cli: src/cli.rs and src/main.rs, what a command line asks for.
--   * Testing: src/testing.rs, the fakes that tests script; Harness runs the reducer against them.
-- A function bears its Rust name in snake_case; a Rust method with branches over a computed option
-- or mode is followed by a helper that takes that option or mode as an argument.
--
-- Representation: a handler is a function from a model to a new model and a list of effects, in the
-- order in which the source pushes them. Cancellation tokens are numbers, with the cancelled ones
-- listed in the model. Maps are association lists. Notice and reveal counters wrap at 2 ^ 64, use
-- counts stop at 2 ^ 32 - 1, search totals wrap at 2 ^ 32, times saturate as `i64`, except that the
-- end of a code's period wraps at 2 ^ 64. The eviction loop of the usage table has the table's
-- length as fuel, since each round removes one record; the printing of a number has one round for
-- each of its units. Other loops are structural.
--
-- The calendar is compared from the year 1 on. The steps of the cache's queue and the events of the
-- clipboard's jobs and of the runner's calls come in any order; listings of vaults, and the tasks of
-- the harness, end in an order that is an argument.
--
-- A handler of the shell runs at one instant, in milliseconds; what arrives does so at instants that
-- are given with it.
--
-- Parameters: `Unicode` (letter case of texts) and `Matcher` (nucleo's atoms and scores) stand for
-- libraries, as do `Decoders` and `Answers` (JSON and UTF-8), `Cipher` (XChaCha20-Poly1305), `Codec`
-- (postcard) and `Keyring` (oo7); random bytes are arguments. A `Runner`, a `Backend`, a `KeyStore` and
-- the `Deps` of the runtime are what such an interface answers. Fixtures has concrete ones, with sample
-- items; the tests of a part have others.
--
-- Not modelled: logging but for the shell's own lines; the environment of pass-cli's process; file
-- paths; the Wayland calls; layout, styling and drawing; the words of the command line, which clap
-- parses; what Debug prints of the harness's messages and effects.
pub mod Base
pub mod Domain
pub mod Pass
pub mod Config
pub mod Usage
pub mod Actions
pub mod Search
pub mod Totp
pub mod State
pub mod Keys
pub mod Cache
pub mod Clipboard
pub mod Runtime
pub mod View
pub mod App
pub mod Cli
pub mod Testing
pub mod Fixtures
