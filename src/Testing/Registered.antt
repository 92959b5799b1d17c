-- ===== src/Testing/Registered.antt =====
-- src/testing.rs: what the in-memory backend answers for the fields that it was given.
use cosmic_pass.Base.{
  ◌≡◌, refl, String, false, Option, some, none, List, [], ◌∷◌, ◌++◌, arith, or_else, map_option,
  if◌then◌else◌,
}
use cosmic_pass.Domain.Items.{ItemKey, ItemSummary, FieldRef}
use cosmic_pass.Pass.Error.{Result, ok, err, field_missing}
use cosmic_pass.Testing.{
  FieldKey, Fields, value_at, extend, same_key, same_field, stored_value, stored_fields, registered,
  with_items, get_field,
}
use text.Mathlib.Text.{◌==◌ as str_eq}

-- The value that the fields list last under a name, and the items under a key and a name.
abbrev last_in_fields : String → List FieldRef → Option String
last_in_fields name [] = none
last_in_fields name (f ∷ fs) =
    or_else (last_in_fields name fs) (if str_eq f.name name then f.value else none)

abbrev pub last_in_items : ItemKey → String → List ItemSummary → Option String
last_in_items key name [] = none
last_in_items key name (i ∷ items) =
    or_else (last_in_items key name items)
      (if same_key i.key key then last_in_fields name i.fields else none)

abbrev pub answer_of : Option String → Result String
answer_of none = err field_missing
answer_of (some value) = ok value

abbrev last_of : FieldKey → Fields → Option (Result String)
last_of k [] = none
last_of k ((l, v) ∷ entries) = or_else (last_of k entries) (if same_field l k then some v else none)

value_at-extend :
    (k : FieldKey) (entries es : Fields)
    → value_at same_field k (extend entries es)
      ≡ or_else (last_of k es) (value_at same_field k entries)
unfolding value_at extend
value_at-extend k entries [] = refl
value_at-extend k entries ((l, v) ∷ es) = ground (arith, value_at-extend k ((l, v) ∷ entries) es)

last_of-append :
    (k : FieldKey) (xs ys : Fields) → last_of k (xs ++ ys) ≡ or_else (last_of k ys) (last_of k xs)
last_of-append k [] ys = ground arith
last_of-append k ((l, v) ∷ xs) ys = ground (arith, last_of-append k xs ys)

last_of-stored_fields :
    (key own : ItemKey) (name : String) (fs : List FieldRef)
    → last_of (key, name) (stored_fields own fs)
      ≡ map_option ok (if same_key own key then last_in_fields name fs else none)
unfolding stored_fields same_field
last_of-stored_fields key own name [] = ground arith
last_of-stored_fields key own name (f ∷ fs) = ground (
  arith,
  last_of-append (key, name) (stored_value own f.name f.value) (stored_fields own fs),
  last_of-stored_fields key own name fs,
)

last_of-registered :
    (key : ItemKey) (name : String) (items : List ItemSummary)
    → last_of (key, name) (registered items) ≡ map_option ok (last_in_items key name items)
unfolding registered
last_of-registered key name [] = refl
last_of-registered key name (i ∷ items) = ground (
  arith,
  last_of-append (key, name) (stored_fields i.key i.fields) (registered items),
  last_of-stored_fields key i.key name i.fields,
  last_of-registered key name items,
)

-- A backend that is given items answers a call for a field with the value that they list last under
-- the key and the name, and with `FieldMissing` if they list none.
pub get_field-with_items :
    (items : List ItemSummary) (key : ItemKey) (name : String)
    → (get_field (with_items items) false key name).0 ≡ answer_of (last_in_items key name items)
unfolding get_field with_items value_at
get_field-with_items items key name =
    ground
      (arith, value_at-extend (key, name) [] (registered items), last_of-registered key name items)
