-- ===== src/Pass/Parse/Fill.antt =====
-- src/pass/parse.rs: how the content of each kind fills a summary.
use cosmic_pass.Base.{List, [], ◌∷◌, or_else, if◌then◌else◌}
use cosmic_pass.Domain.Items.{FieldRef, ItemKind, ItemSummary, secret_field}
use cosmic_pass.Pass.Parse.Raw.{LoginBody, CardBody, IdentityBody, KindContent, RawContent}
use cosmic_pass.Pass.Parse.Fields.{
  push, secret_if, plain_if, Member, unstored_if, push_websites, custom_fields, section_fields,
}

-- The members of an identity, in the order of the groups.
abbrev pub personal_members : IdentityBody → List Member
personal_members b =
    (b.phone_number, "phone_number", "Phone number")
    ∷ (b.first_name, "first_name", "First name")
    ∷ (b.middle_name, "middle_name", "Middle name")
    ∷ (b.last_name, "last_name", "Last name")
    ∷ (b.birthdate, "birthdate", "Birthdate")
    ∷ (b.gender, "gender", "Gender")
    ∷ []

abbrev pub address_members : IdentityBody → List Member
address_members b =
    (b.organization, "organization", "Organization")
    ∷ (b.street_address, "street_address", "Street address")
    ∷ (b.zip_or_postal_code, "zip_or_postal_code", "ZIP or postal code")
    ∷ (b.city, "city", "City")
    ∷ (b.state_or_province, "state_or_province", "State or province")
    ∷ (b.country_or_region, "country_or_region", "Country or region")
    ∷ (b.floor, "floor", "Floor")
    ∷ (b.county, "county", "County")
    ∷ []

abbrev pub contact_members : IdentityBody → List Member
contact_members b =
    (b.website, "website", "Website")
    ∷ (b.x_handle, "x_handle", "X handle")
    ∷ (b.second_phone_number, "second_phone_number", "Second phone number")
    ∷ (b.linkedin, "linkedin", "LinkedIn")
    ∷ (b.reddit, "reddit", "Reddit")
    ∷ (b.facebook, "facebook", "Facebook")
    ∷ (b.yahoo, "yahoo", "Yahoo")
    ∷ (b.instagram, "instagram", "Instagram")
    ∷ []

abbrev pub work_members : IdentityBody → List Member
work_members b =
    (b.company, "company", "Company")
    ∷ (b.job_title, "job_title", "Job title")
    ∷ (b.personal_website, "personal_website", "Personal website")
    ∷ (b.work_phone_number, "work_phone_number", "Work phone number")
    ∷ (b.work_email, "work_email", "Work email")
    ∷ []

unfoldable pub personal_fields : IdentityBody → List FieldRef → List FieldRef
unfolding plain_if unstored_if
personal_fields b f =
    unstored_if (plain_if (plain_if f b.full_name "full_name" "Full name") b.email "email" "Email")
      (personal_members b)

unfoldable pub contact_fields : IdentityBody → List FieldRef → List FieldRef
unfolding secret_if unstored_if
contact_fields b f =
    let f1 =
      secret_if f b.social_security_number "social_security_number" "Social security number" in
    let f2 = secret_if f1 b.passport_number "passport_number" "Passport number" in
    let f3 = secret_if f2 b.license_number "license_number" "License number" in
    unstored_if f3 (contact_members b)

-- `IdentityBody::fill`: personal details, address, contact and work, each with its custom fields.
unfoldable pub fill_identity : IdentityBody → ItemSummary → ItemSummary
unfolding personal_fields contact_fields unstored_if custom_fields section_fields
fill_identity b s =
    let s1 = record s { fields = personal_fields b s.fields } in
    let s2 = custom_fields s1 b.extra_personal_details in
    let s3 = record s2 { fields = unstored_if s2.fields (address_members b) } in
    let s4 = custom_fields s3 b.extra_address_details in
    let s5 = record s4 { fields = contact_fields b s4.fields } in
    let s6 = custom_fields s5 b.extra_contact_details in
    let s7 = record s6 { fields = unstored_if s6.fields (work_members b) } in
    let s8 = custom_fields s7 b.extra_work_details in
    let s9 = section_fields s8 b.sections in record s9 { email = b.email; subtitle = b.full_name }

unfoldable pub login_fields : LoginBody → List FieldRef → List FieldRef
unfolding plain_if secret_if push_websites
login_fields b f =
    let f1 = plain_if f b.username "username" "Username" in
    let f2 = plain_if f1 b.email "email" "Email" in
    let f3 = secret_if f2 b.password "password" "Password" in push_websites 0 f3 b.urls

unfoldable pub card_fields : CardBody → List FieldRef → List FieldRef
unfolding plain_if secret_if
card_fields b f =
    let f1 = secret_if f b.number "number" "Card number" in
    let f2 = plain_if f1 b.cardholder_name "cardholder_name" "Cardholder" in
    let f3 = plain_if f2 b.expiration_date "expiration_date" "Expiration date" in
    let f4 = secret_if f3 b.verification_number "verification_number" "Security code" in
    secret_if f4 b.pin "pin" "PIN"

-- The match of `RawContent::fill`, on the kind of the content.
unfoldable pub fill_kind : KindContent → ItemSummary → ItemSummary
unfolding login_fields card_fields fill_identity plain_if secret_if section_fields
fill_kind (KindContent.login b) s = record s {
  kind = ItemKind.login;
  fields = login_fields b s.fields;
  totp_fields = if b.totp_uri then push s.totp_fields "totp_uri" else s.totp_fields;
  subtitle = or_else b.username b.email;
  username = b.username;
  email = b.email;
  urls = b.urls;
}
fill_kind (KindContent.card b) s = record s {
  kind = ItemKind.credit_card;
  fields = card_fields b s.fields;
  subtitle = b.cardholder_name;
}
fill_kind (KindContent.identity b) s = fill_identity b (record s { kind = ItemKind.identity })
fill_kind (KindContent.wifi b) s =
    section_fields
      (record s {
        kind = ItemKind.wifi;
        fields =
            plain_if (secret_if s.fields b.password "password" "Password") b.ssid "ssid"
              "Network name";
        subtitle = b.ssid;
      })
      b.sections
fill_kind (KindContent.ssh b) s =
    section_fields
      (record s {
        kind = ItemKind.ssh_key;
        fields =
            plain_if (secret_if s.fields b.private_key "private_key" "Private key") b.public_key
              "public_key" "Public key";
      })
      b.sections
fill_kind (KindContent.custom b) s = section_fields (record s { kind = ItemKind.custom }) b.sections
fill_kind KindContent.note s = record s { kind = ItemKind.note }
fill_kind KindContent.alias s = record s { kind = ItemKind.alias }
fill_kind (KindContent.unknown name) s = record s { kind = ItemKind.unknown name }
fill_kind KindContent.missing s = s

-- A note stands first in a note, and last in any other item.
unfoldable pub note_fields : ItemKind → List FieldRef → List FieldRef
note_fields ItemKind.note fields = secret_field "note" "Note" ∷ fields
note_fields _ fields = push fields (secret_field "note" "Note")

-- `RawContent::fill`.
unfoldable pub fill : RawContent → ItemSummary → ItemSummary
unfolding fill_kind custom_fields note_fields
fill c s =
    let filled =
      custom_fields (fill_kind c.content (record s { title = c.title })) c.extra_fields in
    if c.note then record filled { fields = note_fields filled.kind filled.fields } else filled
