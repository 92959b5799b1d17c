-- ===== src/Cache/Store.antt =====
-- src/cache/store.rs: loading, saving and deleting the cache file. The file system is the file that is
-- there, and the faults that a call meets; postcard is a parameter.
use cosmic_pass.Base.{ℕ, ◌+◌, String, Bool, true, false, Option, none, some, if◌then◌else◌, ◌==◌}
use cosmic_pass.Domain.Items.{CacheFile, cache_format_version}
use cosmic_pass.Cache.{CacheError, Tried, done, failed}
use cosmic_pass.Cache.Crypto.{Bytes, Cipher, seal, open_file}
use cosmic_pass.Cache.KeyStore.{KeyStore, missing, unavailable, KeyOutcome, got, lacking}

-- How the writing of a file ends: it may fail before or after the new file takes the old one's place.
pub data Write : Type 0 where
  written : Write
  before after : String → Write

-- The faults that the file system has in store for a call.
pub record Faults : Type 0 where
  pub read_fails : Bool
  pub remove_fails : Bool
  pub write : Write

pub record Codec : Type 0 where
  pub to_bytes : CacheFile → Tried Bytes
  pub from_bytes : Bytes → Option CacheFile

-- The cache file, the keys, and how many files were written.
pub record World (K : Type 0) : Type 0 where
  pub disk : Option Bytes
  pub keys : K
  pub writes : ℕ

module _ {K : Type 0} where
  unfoldable pub remove : Faults → World K → World K
  remove faults w = if faults.remove_fails then w else record w { disk = none }

  -- `write_atomic`.
  unfoldable pub write_atomic : Write → Bytes → World K → Tried (Unit {0}) × World K
  write_atomic written bytes w = (done tt, record w { disk = some bytes })
  write_atomic (before message) bytes w = (failed (CacheError.io message), w)
  write_atomic (after message) bytes w =
      (failed (CacheError.io message), record w { disk = some bytes })

  abbrev counted : Tried (Unit {0}) × World K → Tried (Unit {0}) × World K
  counted (done u, w) = (done u, record w { writes = w.writes + 1 })
  counted (failed e, w) = (failed e, w)

  module _ (store : KeyStore K) (cipher : Cipher) (codec : Codec) where
    abbrev pub parsed : Tried Bytes → Option CacheFile
    parsed (done plain) = codec.from_bytes plain
    parsed (failed e) = none

    unfoldable pub decoded : Bytes → Bytes → Option CacheFile
    unfolding open_file
    decoded key raw = parsed (open_file cipher key raw)

    unfoldable pub load_decoded : Faults → World K → Option CacheFile → Option CacheFile × World K
    unfolding remove
    load_decoded faults w none = (none, remove faults w)
    load_decoded faults w (some file) =
        if file.format_version == cache_format_version
        then (some file, w)
        else (none, remove faults w)

    unfoldable pub load_with : Faults → World K → Bytes → KeyOutcome → Option CacheFile × World K
    unfolding load_decoded decoded remove
    load_with faults w raw (lacking unavailable) = (none, w)
    load_with faults w raw (lacking missing) = (none, remove faults w)
    load_with faults w raw (got key) = load_decoded faults w (decoded key raw)

    unfoldable pub load_raw : Faults → World K → Option Bytes → Option CacheFile × World K
    unfolding load_with
    load_raw faults w none = (none, w)
    load_raw faults w (some raw) =
        let (outcome, keys) = store.key false w.keys in
        if faults.read_fails
        then (none, w)
        else load_with faults (record w { keys = keys }) raw outcome

    -- `CacheStore::load`.
    unfoldable pub load : Faults → World K → Option CacheFile × World K
    unfolding load_raw
    load faults w = load_raw faults w w.disk

    unfoldable pub save_sealed : Faults → World K → Tried Bytes → Tried (Unit {0}) × World K
    unfolding write_atomic
    save_sealed faults w (failed e) = (failed e, w)
    save_sealed faults w (done sealed) = counted (write_atomic faults.write sealed w)

    abbrev pub sealed_bytes : Bytes → Bytes → Tried Bytes → Tried Bytes
    sealed_bytes key nonce (failed e) = failed e
    sealed_bytes key nonce (done plain) = seal cipher key nonce plain

    unfoldable pub save_with :
        Faults → World K → Bytes → CacheFile → KeyOutcome → Tried (Unit {0}) × World K
    unfolding save_sealed seal
    save_with faults w nonce file (lacking state) = (done tt, w)
    save_with faults w nonce file (got key) =
        save_sealed faults w (sealed_bytes key nonce (codec.to_bytes file))

    -- `CacheStore::save`, with the random bytes of the nonce.
    unfoldable pub save : Faults → Bytes → CacheFile → World K → Tried (Unit {0}) × World K
    unfolding save_with
    save faults nonce file w =
        let (outcome, keys) = store.key true w.keys in
        save_with faults (record w { keys = keys }) nonce file outcome

    -- What `CacheStore::delete_all` does to the file and the key.
    unfoldable pub delete_files : Faults → World K → World K
    unfolding remove
    delete_files faults w =
        let v = remove faults w in
        let (result, keys) = store.delete v.keys in record v { keys = keys }
