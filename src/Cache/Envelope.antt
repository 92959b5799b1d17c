-- ===== src/Cache/Envelope.antt =====
-- src/cache/crypto.rs: opening and sealing undo each other.
use cosmic_pass.Base.{
  ℕ, ◌+◌, ◌-◌, ◌≤◌, zero, suc, ◌≡◌, refl, ◌∙◌, ap, true, false, Option, none, some, [], ◌∷◌, ◌++◌,
  ◌==◌, ltb, length, take, arith, Bool-cases, inl, inr, subst, Option-cases,
}
use cosmic_pass.Base.Text.{same_codes}
use cosmic_pass.Cache.{Tried, done, failed}
use cosmic_pass.Cache.Crypto.{
  Bytes, Cipher, magic, version_of, envelope_version, header, header_len, skip, seal, open_file,
  opened_with,
}

take-append : (xs ys : Bytes) → take (length xs) (xs ++ ys) ≡ xs
unfolding take
take-append [] ys = refl
take-append (x ∷ xs) ys = ap (λ zs. x ∷ zs) (take-append xs ys)

skip-append : (xs ys : Bytes) → skip (length xs) (xs ++ ys) ≡ ys
unfolding skip
skip-append [] ys = refl
skip-append (x ∷ xs) ys = skip-append xs ys

take-skip : (n : ℕ) (xs : Bytes) → take n xs ++ skip n xs ≡ xs
unfolding take skip
take-skip zero xs = refl
take-skip (suc n) [] = refl
take-skip (suc n) (x ∷ xs) = ap (λ zs. x ∷ zs) (take-skip n xs)

length-append : (xs ys : Bytes) → length (xs ++ ys) ≡ length xs + length ys
length-append [] ys = omega arith
length-append (x ∷ xs) ys = omega (arith, length-append xs ys)

file_or : Bytes → Tried Bytes → Bytes
file_or d (done a) = a
file_or d (failed e) = d

done_injective : {a b : Bytes} → done a ≡ done b → a ≡ b
unfolding file_or
done_injective {a} h = ap (file_or a) h

length-take_of : (n : ℕ) (xs : Bytes) → n ≤ length xs → length (take n xs) ≡ n
unfolding take
length-take_of zero xs h = refl
length-take_of (suc n) [] h = absurd (omega arith)
length-take_of (suc n) (x ∷ xs) h = omega (arith, length-take_of n xs)

length-header : (nonce : Bytes) → length nonce ≡ 24 → length (header nonce) ≡ header_len
length-header nonce h = omega arith

take_of : (xs ys : Bytes) (n : ℕ) → length xs ≡ n → take n (xs ++ ys) ≡ xs
take_of xs ys n h = subst (λ k. take k (xs ++ ys) ≡ xs) h (take-append xs ys)

skip_of : (xs ys : Bytes) (n : ℕ) → length xs ≡ n → skip n (xs ++ ys) ≡ ys
skip_of xs ys n h = subst (λ k. skip k (xs ++ ys) ≡ ys) h (skip-append xs ys)

long_enough :
    (nonce body : Bytes)
    → length nonce ≡ 24
    → ltb (length (header nonce ++ body)) header_len ≡ false
long_enough nonce body h = ground (arith, length-append nonce body)

open_file-header :
    (c : Cipher) (key nonce body : Bytes)
    → length nonce ≡ 24
    → open_file c key (header nonce ++ body) ≡ opened_with (c.decrypt key nonce (header nonce) body)
unfolding open_file same_codes skip take
open_file-header c key nonce body h =
    rw (long_enough nonce body h, take_of nonce body 24 h, skip_of nonce body 24 h) refl

-- A file that was sealed with a key opens with it to the text that was sealed, if the cipher decrypts
-- what it encrypted and the nonce has its 24 bytes.
pub open_file-seal :
    (c : Cipher)
    (inverse : (key nonce head plain body : Bytes)
      → c.encrypt key nonce head plain ≡ some body
      → c.decrypt key nonce head body ≡ some plain)
    (key nonce plain file : Bytes)
    → length nonce ≡ 24
    → seal c key nonce plain ≡ done file
    → open_file c key file ≡ done plain
unfolding seal
open_file-seal c inverse key nonce plain file h s =
    elim (Option-cases (c.encrypt key nonce (header nonce) plain)) [
      | inl e ↦ absurd (cc (rw (e, seal) at s))
      | inr (body, e) ↦
          subst (λ f. open_file c key f ≡ done plain) (done_injective (rw (e, seal) at s))
            (open_file-header c key nonce body h
              ∙ ap opened_with (inverse key nonce (header nonce) plain body e))
    ]

-- A header that passes the checks is the header of its nonce.
header_of :
    (file : Bytes)
    → ltb (length file) header_len ≡ false
    → same_codes (take 4 file) magic ≡ true
    → version_of file == envelope_version ≡ true
    → header (skip 6 (take header_len file)) ≡ take header_len file
unfolding take skip same_codes
header_of [] h m v = absurd (ground (arith, h))
header_of (a ∷ []) h m v = absurd (cc m)
header_of (a ∷ b ∷ []) h m v = absurd (ground (arith, m))
header_of (a ∷ b ∷ c ∷ []) h m v = absurd (ground (arith, m))
header_of (a ∷ b ∷ c ∷ d ∷ []) h m v = absurd (ground (arith, v))
header_of (a ∷ b ∷ c ∷ d ∷ e ∷ []) h m v = absurd (ground (arith, v))
header_of (a ∷ b ∷ c ∷ d ∷ e ∷ f ∷ rest) h m v = ground arith

checked :
    (c : Cipher) (key file plain : Bytes)
    → open_file c key file ≡ done plain
    → (ltb (length file) header_len ≡ false)
      × (same_codes (take 4 file) magic ≡ true)
      × (version_of file == envelope_version ≡ true)
      × (opened_with (
            c.decrypt key
              (skip 6 (take header_len file))
              (take header_len file)
              (skip header_len file))
          ≡ done plain)
unfolding open_file
checked c key file plain h = elim (Bool-cases (ltb (length file) header_len)) [
  | inl e ↦ absurd (cc (rw (e, open_file) at h))
  | inr e ↦ elim (Bool-cases (same_codes (take 4 file) magic)) [
    | inr m ↦ absurd (cc (rw (e, m, open_file) at h))
    | inl m ↦ elim (Bool-cases (version_of file == envelope_version)) [
      | inr v ↦ absurd (cc (rw (e, m, v, open_file) at h))
      | inl v ↦ (e, m, v, rw (e, m, v, open_file) at h)
    ]
  ]
]

opened_some : (o : Option Bytes) (plain : Bytes) → opened_with o ≡ done plain → o ≡ some plain
opened_some none plain h = absurd (cc h)
opened_some (some p) plain h = ap some (done_injective h)

length-skip : (n : ℕ) (xs : Bytes) → length (skip n xs) ≡ length xs - n
unfolding skip
length-skip zero xs = omega arith
length-skip (suc n) [] = omega arith
length-skip (suc n) (x ∷ xs) = omega (arith, length-skip n xs)

-- Only a file that sealing makes opens: a file that opens with a key to a text is what sealing that
-- text with that key gives, for a nonce of 24 bytes, if the cipher accepts no other body than the one
-- that it makes.
pub seal-open_file :
    (c : Cipher)
    (authentic : (key nonce head plain body : Bytes)
      → c.decrypt key nonce head body ≡ some plain
      → c.encrypt key nonce head plain ≡ some body)
    (key file plain : Bytes)
    → open_file c key file ≡ done plain
    → (nonce : Bytes) × (length nonce ≡ 24) × (seal c key nonce plain ≡ done file)
unfolding seal
seal-open_file c authentic key file plain h =
    let (l, m, v, o) = checked c key file plain h in
    let head = take header_len file in
    let nonce = skip 6 head in
    let same = header_of file l m v in
    let body = authentic key nonce head plain (skip header_len file) (opened_some _ plain o) in
    (
      nonce,
      ground (arith, length-skip 6 head, length-take_of header_len file, l),
      rw (same, body) (ap done (take-skip header_len file)),
    )
