-- ===== src/Cache/Crypto.antt =====
-- src/cache/crypto.rs: the envelope of the cache file. The cipher is a parameter, and so are the bytes
-- of the nonce, which the source takes from the random generator.
use cosmic_pass.Base.{
  ℕ, ◌+◌, ◌*◌, ◌/◌, ◌%◌, zero, suc, not, ◌||◌, Option, none, some, List, [], ◌∷◌, ◌++◌,
  if◌then◌else◌, ◌==◌, ltb, length, take,
}
use cosmic_pass.Base.Text.{same_codes}
use cosmic_pass.Cache.{CacheError, Tried, done, failed}

abbrev pub Bytes : Type 0
Bytes = List ℕ

-- `b"CPC1"`.
abbrev pub magic : Bytes
magic = b'C' ∷ b'P' ∷ b'C' ∷ b'1' ∷ []

abbrev pub envelope_version : ℕ
envelope_version = 1

abbrev pub header_len : ℕ
header_len = 30

-- `u16::to_le_bytes` and `u16::from_le_bytes`.
abbrev pub to_le_bytes : ℕ → Bytes
to_le_bytes n = n % 256 ∷ n / 256 % 256 ∷ []

abbrev pub from_le_bytes : ℕ → ℕ → ℕ
from_le_bytes a b = a + 256 * b

-- XChaCha20-Poly1305: the key, the nonce, the associated data, and the text.
pub record Cipher : Type 0 where
  pub encrypt : Bytes → Bytes → Bytes → Bytes → Option Bytes
  pub decrypt : Bytes → Bytes → Bytes → Bytes → Option Bytes

abbrev pub header : Bytes → Bytes
header nonce = magic ++ to_le_bytes envelope_version ++ nonce

-- `slice::split_at`.
unfoldable pub skip : ℕ → Bytes → Bytes
skip zero bs = bs
skip (suc n) [] = []
skip (suc n) (b ∷ bs) = skip n bs

abbrev pub version_of : Bytes → ℕ
version_of (a ∷ b ∷ c ∷ d ∷ e ∷ f ∷ rest) = from_le_bytes e f
version_of _ = 0

abbrev pub sealed_with : Bytes → Option Bytes → Tried Bytes
sealed_with head none = failed CacheError.corrupt
sealed_with head (some body) = done (head ++ body)

abbrev pub opened_with : Option Bytes → Tried Bytes
opened_with none = failed CacheError.corrupt
opened_with (some plain) = done plain

module _ (c : Cipher) where
  unfoldable pub seal : Bytes → Bytes → Bytes → Tried Bytes
  seal key nonce plain = sealed_with (header nonce) (c.encrypt key nonce (header nonce) plain)

  unfoldable pub open_file : Bytes → Bytes → Tried Bytes
  unfolding take skip same_codes
  open_file key file =
      let head = take header_len file in
      if ltb (length file) header_len || not (same_codes (take 4 file) magic)
      then failed CacheError.corrupt
      else if not (version_of file == envelope_version)
      then failed CacheError.unsupported
      else opened_with (c.decrypt key (skip 6 head) head (skip header_len file))
