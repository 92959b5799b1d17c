-- ===== src/Cache.antt =====
-- src/cache: the encrypted cache of the items on disk.
mod Tests
pub mod Crypto
pub mod Envelope
pub mod KeyStore
pub mod Store
pub mod Loaded
pub mod Kept
pub mod Debounce
pub mod Settled
use cosmic_pass.Base.{String}

pub data CacheError : Type 0 where
  no_key corrupt unsupported : CacheError
  keyring : String → CacheError
  io : String → CacheError

pub data Tried {ℓ} (A : Type ℓ) : Type ℓ where
  done : A → Tried A
  failed : CacheError → Tried A
