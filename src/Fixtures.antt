-- ===== src/Fixtures.antt =====
-- Sample data for the tests: letter case and a matcher by containment, items and preferences.
use cosmic_pass.Base.{
  ℕ, String, Bool, true, false, Option, some, none, List, [], ◌∷◌, if◌then◌else◌,
}
use cosmic_pass.Base.Int.{pos}
use cosmic_pass.Base.Unicode.{Unicode}
use cosmic_pass.Base.Text.{contains}
use cosmic_pass.Domain.Items.{
  ItemKey, ItemKind, ItemSummary, FieldRef, Listing, secret_field, plain_field,
}
use cosmic_pass.Search.Index.{Matcher}
use cosmic_pass.Domain.Version.{version}
use cosmic_pass.Pass.Error.{ok}
use cosmic_pass.Runtime.{Deps}
use text.Mathlib.Text.{◌==◌ as str_eq}

abbrev pub plain_case : Unicode
plain_case = record { to_lowercase = λ s. s; to_uppercase = λ s. s }

abbrev one_atom : String → List String
one_atom q = if str_eq q "" then [] else q ∷ []

abbrev found : Bool → Option (ℕ × List ℕ)
found true = some (10, 0 ∷ [])
found false = none

abbrev scored : Bool → Option ℕ
scored true = some 10
scored false = none

unfoldable pub containment : Matcher
unfolding contains
containment = record {
  Atom = String;
  atoms = one_atom;
  indices = λ atom text. found (contains text atom);
  score = λ atom text. scored (contains text atom);
}

abbrev pub key : String → ItemKey
key i = record { share = "s"; item = i }

abbrev pub login_fields : List FieldRef
login_fields = plain_field "username" "Username" "octo" ∷ secret_field "password" "Password" ∷ []

abbrev pub login : String → String → ItemSummary
login i title = record {
  key = key i;
  vault_name = "Personal";
  kind = ItemKind.login;
  title = title;
  username = some "octo";
  email = none;
  subtitle = some "octo";
  urls = [];
  totp_fields = "totp_uri" ∷ [];
  fields = login_fields;
  modified_at = pos 0;
}

abbrev pub two_logins : Listing
two_logins = record { vaults = []; items = login "a" "GitHub" ∷ login "b" "Bank" ∷ [] }

-- What every call of the runtime is answered with.
abbrev pub deps : Deps
deps = record {
  backend = record {
    account = ok "a";
    version = ok (version 2 3 0);
    list_all = ok (record { vaults = []; items = [] });
    get_field = λ k f c. ok "hunter2";
    totp = λ k c. ok (("totp", "123456") ∷ []);
    login = ([], ok tt);
  };
  clipboard = λ v s n. none;
  cache = none;
  save_preferences = true;
}
