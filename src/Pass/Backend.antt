-- ===== src/Pass/Backend.antt =====
-- src/pass/backend.rs: the command lines, and the operations over a runner of them.
-- The runner is a parameter: what a command line answers within its time. A token that nobody else
-- holds is `none`. The vaults are listed at once, so the order in which the listings end is an argument.
mod Tests
pub mod Listed
use cosmic_pass.Base.{ℕ, String, Bool, Option, none, some, List, [], ◌∷◌, ◌++◌, map, get_elem?}
use cosmic_pass.Domain.Items.{AccountId, ItemKey, Vault, ItemSummary, Listing}
use cosmic_pass.Domain.Version.{CliVersion}
use cosmic_pass.Pass.Error.{PassError, Result, ok, err}
use cosmic_pass.Pass.Parse.Output.{
  Bytes, Answers, parse_account, parse_vaults, parse_items, parse_totp, parse_field, parse_version,
}
use Prim.Native.String.{◌++◌ as text_append}

abbrev pub Args : Type 0
Args = List String

-- Seconds.
abbrev version_timeout : ℕ
version_timeout = 5

abbrev info_timeout : ℕ
info_timeout = 5

abbrev list_timeout : ℕ
list_timeout = 20

abbrev field_timeout : ℕ
field_timeout = 10

abbrev login_timeout : ℕ
login_timeout = 300

abbrev share_arg : String → String
share_arg share = text_append "--share-id=" share

abbrev item_arg : String → String
item_arg item = text_append "--item-id=" item

-- The module `argv`; `id_args` are the two arguments of a key.
abbrev pub version_args : Args
version_args = "--version" ∷ []

abbrev pub info_args : Args
info_args = "info" ∷ "--output" ∷ "json" ∷ []

abbrev pub vault_list_args : Args
vault_list_args = "vault" ∷ "list" ∷ "--output" ∷ "json" ∷ []

abbrev pub item_list_args : String → Args
item_list_args share =
    "item" ∷ "list" ∷ share_arg share ∷ "--output" ∷ "json" ∷ "--show-secrets" ∷ []

abbrev pub id_args : ItemKey → Args
id_args key = share_arg key.share ∷ item_arg key.item ∷ []

abbrev pub item_view_args : ItemKey → String → Args
item_view_args key field = "item" ∷ "view" ∷ id_args key ++ text_append "--field=" field ∷ []

abbrev pub item_totp_args : ItemKey → Args
item_totp_args key = "item" ∷ "totp" ∷ id_args key ++ "--output" ∷ "json" ∷ []

abbrev pub login_args : Args
login_args = "login" ∷ []

-- `CommandRunner`: the arguments, the time in seconds, and the token that can cancel it.
pub record Runner : Type 0 where
  pub run : Args → ℕ → Option ℕ → Result Bytes
  pub run_streaming : Args → ℕ → List String × Result (Unit {0})

abbrev pub and_then_ok : {A B : Type 0} → Result A → (A → Result B) → Result B
and_then_ok (ok a) f = f a
and_then_ok (err e) f = err e

unfoldable pub collect : {A : Type 0} → List (Result A) → Result (List A)
collect [] = ok []
collect (r ∷ rs) = and_then_ok r (λ a. and_then_ok (collect rs) (λ xs. ok (a ∷ xs)))

abbrev pub error_at : {A : Type 0} → Option (Result A) → Option PassError
error_at none = none
error_at (some (ok a)) = none
error_at (some (err e)) = some e

-- The error of the first that fails, in the order in which they end.
unfoldable pub first_error : {A : Type 0} → List ℕ → List (Result A) → Option PassError
unfolding get_elem?
first_error [] rs = none
first_error (i ∷ is) rs = elim (error_at (get_elem? rs i)) [
  | none ↦ first_error is rs
  | some e ↦ some e
]

-- `try_join_all`.
unfoldable pub try_join_all : {A : Type 0} → List ℕ → List (Result A) → Result (List A)
unfolding first_error collect
try_join_all order rs = elim (first_error order rs) [ none ↦ collect rs | some e ↦ err e ]

abbrev pub flatten : {A : Type 0} → List (List A) → List A
flatten [] = []
flatten (xs ∷ xss) = xs ++ flatten xss

module _ (r : Runner) (a : Answers) where
  unfoldable pub account : Result AccountId
  unfolding parse_account
  account = and_then_ok (r.run info_args info_timeout none) (parse_account a)

  unfoldable pub version : Result CliVersion
  unfolding parse_version
  version = and_then_ok (r.run version_args version_timeout none) (parse_version a)

  unfoldable pub list_vaults : Result (List Vault)
  unfolding parse_vaults
  list_vaults = and_then_ok (r.run vault_list_args list_timeout none) (parse_vaults a)

  -- The listing of one vault.
  unfoldable pub list_vault : Vault → Result (List ItemSummary)
  unfolding parse_items
  list_vault v =
      and_then_ok (r.run (item_list_args v.share_id) list_timeout none)
        (λ out. parse_items a out v.share_id v.name)

  -- The listings of the vaults, which end in the order `order`.
  unfoldable pub list_all : List ℕ → Result Listing
  unfolding list_vaults list_vault try_join_all
  list_all order = and_then_ok list_vaults (λ vaults.
      and_then_ok (try_join_all order (map list_vault vaults))
        (λ per_vault. ok (record { vaults = vaults; items = flatten per_vault })))

  unfoldable pub get_field : ItemKey → String → ℕ → Result String
  unfolding parse_field
  get_field key field cancel =
      and_then_ok (r.run (item_view_args key field) field_timeout (some cancel)) (parse_field a)

  unfoldable pub totp : ItemKey → ℕ → Result (List (String × String))
  unfolding parse_totp
  totp key cancel =
      and_then_ok (r.run (item_totp_args key) field_timeout (some cancel)) (parse_totp a)

  unfoldable pub login : List String × Result (Unit {0})
  login = r.run_streaming login_args login_timeout
