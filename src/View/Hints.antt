-- ===== src/View/Hints.antt =====
-- src/app/view/actions.rs: what is masked.
use cosmic_pass.Base.{
  ℕ, ◌≡◌, refl, ap, String, Bool, true, false, Option, none, some, is_some, unwrap_or, Bool-cases,
  inl, inr,
}
use cosmic_pass.Base.Int.{ℤ}
use cosmic_pass.Actions.Rows.{CopySource, field_source, totp_source}
use cosmic_pass.State.Types.{Model}
use cosmic_pass.State.Query.{revealed_totp}
use cosmic_pass.Totp.{TotpDisplay}
use cosmic_pass.View.Rows.{
  Reveal, masked, shown, plain, shown_if, is_code_of, value_at, reveal_state, code_hint, value_hint,
  mask, totp_mask,
}

abbrev pub mask_of : CopySource → String
mask_of (totp_source name) = totp_mask
mask_of (field_source f) = mask

is_shown : Reveal → Bool
is_shown masked = false
is_shown shown = true
is_shown plain = false

is_plain : Reveal → Bool
is_plain plain = true
is_plain _ = false

hidden : (b : Bool) → shown_if b ≡ masked → b ≡ false
unfolding is_shown
hidden true h = absurd (cc (ap is_shown h))
hidden false h = refl

code_hint-hidden :
    (name : String) (o : Option TotpDisplay) (now : ℤ)
    → is_code_of name o ≡ false
    → code_hint name o now ≡ totp_mask
code_hint-hidden name none now h = refl
code_hint-hidden name (some t) now h = rw h refl

value_hidden : (o : Option String) → is_some o ≡ false → unwrap_or o mask ≡ mask
value_hidden none h = refl
value_hidden (some v) h = absurd (cc h)

-- A row of a secret or of a code that the list does not reveal shows its mask.
value_hint_masked :
    (m : Model) (source : CopySource) (index : Option ℕ) (now : ℤ)
    → reveal_state m source index ≡ masked
    → value_hint m source index now ≡ mask_of source
unfolding reveal_state value_hint is_plain
value_hint_masked m (totp_source name) index now h =
    code_hint-hidden name (revealed_totp m) now (hidden (is_code_of name (revealed_totp m)) h)
value_hint_masked m (field_source f) index now h = elim (Bool-cases f.secret) [
  | inl e ↦ rw e (
      value_hidden (value_at m index)
        (hidden (is_some (value_at m index)) (rw (e, reveal_state) at h)))
  | inr e ↦ absurd (cc (ap is_plain (rw (e, reveal_state) at h)))
]
