-- ===== src/Actions/Complete.antt =====
-- src/core/actions.rs: the action list has a row for everything that can be copied.
use cosmic_pass.Base.{
  ℕ, zero, suc, ◌≡◌, refl, String, Bool, true, false, ◌||◌, Option, none, some, List, [], ◌∷◌, ◌++◌,
  arith, decide, any, get_elem?, Bool-cases, inl, inr, if_keeps, if◌then◌else◌, ◌==◌,
}
use cosmic_pass.Config.Types.{Action, copy_totp}
use cosmic_pass.Domain.Items.{FieldRef, ItemSummary}
use cosmic_pass.Actions.Rows.{
  CopySource, field_source, totp_source, source_discrete, ActionEntry, entry, is_primary,
  primary_rows, primary_action, username_index, url_index, field_rows, field_shortcut, totp_rows,
  all_actions,
}

-- Whether a row copies a source.
unfoldable pub has_source : CopySource → List ActionEntry → Bool
unfolding any decide
has_source s rows = any (λ e. decide (source_discrete e.source s)) rows

has_source-append :
    (s : CopySource) (xs ys : List ActionEntry)
    → has_source s (xs ++ ys) ≡ (has_source s xs || has_source s ys)
unfolding has_source any
has_source-append s [] ys = refl
has_source-append s (x ∷ xs) ys = ground (arith, has_source-append s xs ys)

has_source_here :
    (s : CopySource) (a : Option Action) (o : Option ℕ) (rows : List ActionEntry)
    → has_source s (entry s a o ∷ rows) ≡ true
unfolding has_source any entry decide
has_source_here s a o rows = ground arith

has_source_later :
    (s : CopySource) (e : ActionEntry) (rows : List ActionEntry)
    → has_source s rows ≡ true
    → has_source s (e ∷ rows) ≡ true
unfolding has_source any
has_source_later s e rows h = ground arith

has_source-primary_rows :
    (item : ItemSummary) (primary : Option CopySource) (s : CopySource)
    → is_primary primary s ≡ true
    → has_source s (primary_rows item primary) ≡ true
unfolding has_source any entry decide is_primary primary_rows
has_source-primary_rows item none s h = cc
has_source-primary_rows item (some p) s h = ground arith

-- A field has a row of its own unless the primary row is its row.
has_source-field_rows :
    (primary : Option CopySource) (username url : Option ℕ) (i : ℕ) (fs : List FieldRef) (j : ℕ)
    {f : FieldRef}
    → get_elem? fs j ≡ some f
    → is_primary primary (field_source f) ≡ false
    → has_source (field_source f) (field_rows primary username url i fs) ≡ true
unfolding field_rows get_elem?
has_source-field_rows primary username url i [] j h n = cc
has_source-field_rows primary username url i (g ∷ fs) zero {f} h n =
    elim (Bool-cases (is_primary primary (field_source g))) [
      | inl e ↦ absurd (cc (e, n, h))
      | inr e ↦ rw e (
          cc (
            h,
            has_source_here (field_source g) (field_shortcut username url i) (some i)
                (field_rows primary username url (suc i) fs),
          ))
    ]
has_source-field_rows primary username url i (g ∷ fs) (suc j) {f} h n =
    let later = has_source-field_rows primary username url (suc i) fs j h n in
    if_keeps (λ rows. has_source (field_source f) rows ≡ true) (is_primary primary (field_source g))
      later
      (has_source_later (field_source f)
        (entry (field_source g) (field_shortcut username url i) (some i))
        (field_rows primary username url (suc i) fs) later)

has_source-totp_rows :
    (primary : Option CopySource) (i : ℕ) (names : List String) (j : ℕ) {name : String}
    → get_elem? names j ≡ some name
    → is_primary primary (totp_source name) ≡ false
    → has_source (totp_source name) (totp_rows primary i names) ≡ true
unfolding totp_rows get_elem?
has_source-totp_rows primary i [] j h n = cc
has_source-totp_rows primary i (x ∷ xs) zero {name} h n =
    elim (Bool-cases (is_primary primary (totp_source x))) [
      | inl e ↦ absurd (cc (e, n, h))
      | inr e ↦ rw e (
          cc (
            h,
            has_source_here (totp_source x) (if i == 0 then some copy_totp else none) none
                (totp_rows primary (suc i) xs),
          ))
    ]
has_source-totp_rows primary i (x ∷ xs) (suc j) {name} h n =
    let later = has_source-totp_rows primary (suc i) xs j h n in
    if_keeps (λ rows. has_source (totp_source name) rows ≡ true)
      (is_primary primary (totp_source x)) later
      (has_source_later (totp_source name)
        (entry (totp_source x) (if i == 0 then some copy_totp else none) none)
        (totp_rows primary (suc i) xs) later)

-- Every field of an item has a row in the action list that copies it.
pub all_actions_fields :
    (item : ItemSummary) (j : ℕ) (f : FieldRef)
    → get_elem? item.fields j ≡ some f
    → has_source (field_source f) (all_actions item) ≡ true
unfolding all_actions
all_actions_fields item j f h =
    let primary = primary_action item in
    let fields = field_rows primary (username_index item) (url_index item) 0 item.fields in
    let codes = totp_rows primary 0 item.totp_fields in
    rw
      (
        has_source-append (field_source f) (primary_rows item primary) (fields ++ codes),
        has_source-append (field_source f) fields codes,
      )
      (ground (
        arith,
        has_source-primary_rows item primary (field_source f),
        has_source-field_rows primary (username_index item) (url_index item) 0 item.fields j h,
      ))

-- Every one-time code of an item has a row in the action list that copies it.
pub all_actions_codes :
    (item : ItemSummary) (j : ℕ) (name : String)
    → get_elem? item.totp_fields j ≡ some name
    → has_source (totp_source name) (all_actions item) ≡ true
unfolding all_actions
all_actions_codes item j name h =
    let primary = primary_action item in
    let fields = field_rows primary (username_index item) (url_index item) 0 item.fields in
    let codes = totp_rows primary 0 item.totp_fields in
    rw
      (
        has_source-append (totp_source name) (primary_rows item primary) (fields ++ codes),
        has_source-append (totp_source name) fields codes,
      )
      (ground (
        arith,
        has_source-primary_rows item primary (totp_source name),
        has_source-totp_rows primary 0 item.totp_fields j h,
      ))
