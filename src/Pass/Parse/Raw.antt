-- ===== src/Pass/Parse/Raw.antt =====
-- src/pass/parse.rs: the shape of pass-cli's items, and the visitors of their maps.
-- The JSON parser and the derived decoders are libraries: `Decoders` stands for them. Of a secret
-- value only whether it is empty is kept, as `NonEmpty`.
use cosmic_pass.Base.{String, Bool, false, Option, none, List, []}

-- Whether a string value is non-empty.
abbrev pub NonEmpty : Type 0
NonEmpty = Bool

pub data CustomFieldKind : Type 0 where
  text_field hidden_field totp_field other_field : CustomFieldKind

pub record RawCustomField : Type 0 where
  pub name : String
  pub content : CustomFieldKind

pub record RawSection : Type 0 where
  pub section_name : Option String
  pub section_fields : List RawCustomField

-- The bodies of the kinds, and their `Default` values.
pub record LoginBody : Type 0 where
  pub username : Option String
  pub email : Option String
  pub urls : List String
  pub password : NonEmpty
  pub totp_uri : NonEmpty

abbrev pub empty_login : LoginBody
empty_login = record {
  username = none;
  email = none;
  urls = [];
  password = false;
  totp_uri = false;
}

pub record CardBody : Type 0 where
  pub cardholder_name : Option String
  pub expiration_date : Option String
  pub number : NonEmpty
  pub verification_number : NonEmpty
  pub pin : NonEmpty

abbrev pub empty_card : CardBody
empty_card = record {
  cardholder_name = none;
  expiration_date = none;
  number = false;
  verification_number = false;
  pin = false;
}

pub record IdentityBody : Type 0 where
  pub full_name : Option String
  pub email : Option String
  pub phone_number : NonEmpty
  pub first_name : NonEmpty
  pub middle_name : NonEmpty
  pub last_name : NonEmpty
  pub birthdate : NonEmpty
  pub gender : NonEmpty
  pub extra_personal_details : List RawCustomField
  pub organization : NonEmpty
  pub street_address : NonEmpty
  pub zip_or_postal_code : NonEmpty
  pub city : NonEmpty
  pub state_or_province : NonEmpty
  pub country_or_region : NonEmpty
  pub floor : NonEmpty
  pub county : NonEmpty
  pub extra_address_details : List RawCustomField
  pub social_security_number : NonEmpty
  pub passport_number : NonEmpty
  pub license_number : NonEmpty
  pub website : NonEmpty
  pub x_handle : NonEmpty
  pub second_phone_number : NonEmpty
  pub linkedin : NonEmpty
  pub reddit : NonEmpty
  pub facebook : NonEmpty
  pub yahoo : NonEmpty
  pub instagram : NonEmpty
  pub extra_contact_details : List RawCustomField
  pub company : NonEmpty
  pub job_title : NonEmpty
  pub personal_website : NonEmpty
  pub work_phone_number : NonEmpty
  pub work_email : NonEmpty
  pub extra_work_details : List RawCustomField
  pub sections : List RawSection

abbrev pub empty_identity : IdentityBody
empty_identity = record {
  full_name = none;
  email = none;
  phone_number = false;
  first_name = false;
  middle_name = false;
  last_name = false;
  birthdate = false;
  gender = false;
  extra_personal_details = [];
  organization = false;
  street_address = false;
  zip_or_postal_code = false;
  city = false;
  state_or_province = false;
  country_or_region = false;
  floor = false;
  county = false;
  extra_address_details = [];
  social_security_number = false;
  passport_number = false;
  license_number = false;
  website = false;
  x_handle = false;
  second_phone_number = false;
  linkedin = false;
  reddit = false;
  facebook = false;
  yahoo = false;
  instagram = false;
  extra_contact_details = [];
  company = false;
  job_title = false;
  personal_website = false;
  work_phone_number = false;
  work_email = false;
  extra_work_details = [];
  sections = [];
}

pub record WifiBody : Type 0 where
  pub ssid : Option String
  pub password : NonEmpty
  pub sections : List RawSection

abbrev pub empty_wifi : WifiBody
empty_wifi = record { ssid = none; password = false; sections = [] }

pub record SshBody : Type 0 where
  pub public_key : Option String
  pub private_key : NonEmpty
  pub sections : List RawSection

abbrev pub empty_ssh : SshBody
empty_ssh = record { public_key = none; private_key = false; sections = [] }

pub record CustomBody : Type 0 where
  pub sections : List RawSection

abbrev pub empty_custom : CustomBody
empty_custom = record { sections = [] }

pub data KindContent : Type 0 where
  login : LoginBody → KindContent
  card : CardBody → KindContent
  identity : IdentityBody → KindContent
  wifi : WifiBody → KindContent
  ssh : SshBody → KindContent
  custom : CustomBody → KindContent
  note alias missing : KindContent
  unknown : String → KindContent

pub record RawContent : Type 0 where
  pub title : String
  pub note : NonEmpty
  pub content : KindContent
  pub extra_fields : List RawCustomField

pub record RawItem : Type 0 where
  pub id : String
  pub share_id : Option String
  pub state : String
  pub modify_time : String
  pub title : Option String
  pub item_type : Option String
  pub content : Option RawContent
