-- ===== src/Pass/Backend/Tests.antt =====
-- src/pass/backend.rs: a runner with two vaults, and one that fails.
use cosmic_pass.Base.{◌≡◌, refl, ◌⊎◌, ℕ, String, Option, none, some, List, [], ◌∷◌, length, keep}
use cosmic_pass.Base.Text.{eq_ignore_ascii_case, same_codes}
use cosmic_pass.Domain.Items.{Vault, Listing}
use cosmic_pass.Pass.Error.{PassError, Result, ok, err}
use cosmic_pass.Pass.Parse.Raw.{RawItem}
use cosmic_pass.Pass.Parse.Output.{
  Bytes, Answers, json, parse_vaults, parse_items, is_active, into_summary,
}
use cosmic_pass.Pass.Backend.{
  Args, Runner, list_vaults, list_all, list_vault, try_join_all, first_error, collect,
}
use cosmic_pass.Pass.Backend.Listed.{IsListed, FailsWith, list_all-IsListed, list_all-Fails}

-- A command line is answered with its length: 4 arguments list the vaults, 6 a vault.
abbrev answered : Args → ℕ → Option ℕ → Result Bytes
answered args seconds cancel = ok (length args ∷ [])

abbrev runner : Runner
runner = record { run = answered; run_streaming = λ args seconds. ([], ok tt) }

abbrev vaults : Bytes → Option (List (String × String))
vaults bytes = some (("s", "Personal") ∷ ("t", "Work") ∷ [])

abbrev answers : Option (List RawItem) → Answers
answers items = record {
  info_id = λ b. none;
  vault_list = vaults;
  item_list = λ b. items;
  codes_map = λ b. none;
  from_utf8 = λ b. none;
}

abbrev raw : String → RawItem
raw state = record {
  id = "i";
  share_id = none;
  state = state;
  modify_time = "";
  title = some "GitHub";
  item_type = some "login";
  content = none;
}

abbrev raw_items : List RawItem
raw_items = raw "Trashed" ∷ raw "Active" ∷ []

abbrev listing : Listing
listing = record {
  vaults =
      record { share_id = "s"; name = "Personal" } ∷ record { share_id = "t"; name = "Work" } ∷ [];
  items = into_summary "s" "Personal" (raw "Active") ∷ into_summary "t" "Work" (raw "Active") ∷ [];
}

list_all-IsListed_example :
    (list_vaults runner (answers (some raw_items)) ≡ ok listing.vaults)
    × IsListed runner (answers (some raw_items)) listing.vaults listing.items
unfolding list_all list_vaults list_vault try_join_all first_error collect parse_vaults parse_items
    json keep is_active eq_ignore_ascii_case same_codes
list_all-IsListed_example =
    list_all-IsListed runner (answers (some raw_items)) (1 ∷ 0 ∷ []) listing refl

abbrev undecodable : PassError
undecodable = PassError.protocol "item list"

list_all-Fails_example :
    (list_vaults runner (answers none) ≡ err undecodable)
    ⊎ ((vs : List Vault) × (list_vaults runner (answers none) ≡ ok vs)
        × FailsWith runner (answers none) undecodable vs)
unfolding list_all list_vaults list_vault try_join_all first_error collect parse_vaults parse_items
    json keep
list_all-Fails_example = list_all-Fails runner (answers none) (1 ∷ 0 ∷ []) undecodable refl
