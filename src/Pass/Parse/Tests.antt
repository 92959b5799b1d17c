-- ===== src/Pass/Parse/Tests.antt =====
-- src/pass/parse.rs: a login with a hidden field and a note, and the answers of commands.
use cosmic_pass.Base.{◌≡◌, String, true, none, some, [], ◌∷◌}
use cosmic_pass.Domain.Items.{field}
use cosmic_pass.Pass.Parse.Raw.{
  RawItem, RawCustomField, KindContent, LoginBody, empty_login, hidden_field,
}
use cosmic_pass.Pass.Parse.Output.{own_name, empty_summary, filled, into_summary}
use cosmic_pass.Pass.Parse.Dedupe.{is_distinct, last_named}
use cosmic_pass.Pass.Parse.Selectors.{field_name, into_summary_distinct, field-into_summary}

abbrev login_body : LoginBody
login_body = record empty_login { username = some "octo"; password = true; totp_uri = true }

abbrev custom : String → RawCustomField
custom name = record { name = name; content = hidden_field }

-- A hidden field bears the name of the password.
abbrev sample : RawItem
sample = record {
  id = "i";
  share_id = none;
  state = "Active";
  modify_time = "2024-02-29T00:00:01";
  title = none;
  item_type = none;
  content = some (record {
    title = "GitHub";
    note = true;
    content = KindContent.login login_body;
    extra_fields = custom "password" ∷ custom "PIN" ∷ [];
  });
}

into_summary_distinct_example :
    (is_distinct field_name (into_summary "s" "Personal" sample).fields ≡ true)
    × (is_distinct own_name (into_summary "s" "Personal" sample).totp_fields ≡ true)
into_summary_distinct_example = into_summary_distinct "s" "Personal" sample

field-into_summary_example :
    field (into_summary "s" "Personal" sample) "password"
    ≡ last_named field_name "password"
        (filled sample.content (empty_summary sample "s" "Personal")).fields
field-into_summary_example = field-into_summary "s" "Personal" sample "password"

-- Answers that know one text.
