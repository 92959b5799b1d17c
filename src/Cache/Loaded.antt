-- ===== src/Cache/Loaded.antt =====
-- src/cache/store.rs: what loading gives back, and what it destroys.
use cosmic_pass.Base.{
  ◌+◌, ◌≡◌, refl, sym, ◌∙◌, ap, true, false, none, some, if◌then◌else◌, ◌==◌, length, subst,
}
use cosmic_pass.Domain.Items.{CacheFile, cache_format_version}
use cosmic_pass.Cache.{Tried, done, failed}
use cosmic_pass.Cache.Crypto.{Bytes, Cipher, seal, open_file}
use cosmic_pass.Cache.Envelope.{open_file-seal}
use cosmic_pass.Cache.KeyStore.{KeyStore, KeyOutcome, got}
use cosmic_pass.Cache.Store.{
  written, Faults, Codec, World, remove, load, load_raw, load_with, load_decoded, decoded, parsed,
  save, save_with, save_sealed, sealed_bytes, write_atomic,
}

abbrev Saved : Type 0 → Type 0
Saved K = Tried (Unit {0}) × World K

module _ {K : Type 0} where
  abbrev with_file : World K → Bytes → World K
  with_file w sealed = record { disk = some sealed; keys = w.keys; writes = w.writes + 1 }

  module _ (store : KeyStore K) (cipher : Cipher) (codec : Codec) where
    save_sealed-done :
        (faults : Faults) (w : World K) (t : Tried Bytes) (w' : World K)
        → faults.write ≡ written
        → ◌≡◌ {A = Saved K} (save_sealed store cipher codec faults w t) (done tt, w')
        → (sealed : Bytes) × (t ≡ done sealed) × (with_file w sealed ≡ w')
    unfolding save_sealed write_atomic
    save_sealed-done faults w (failed e) w' f h = absurd (cc (ap (λ (p : Saved K). p.0) h))
    save_sealed-done faults w (done s) w' f h =
        (s, refl, ap (λ (p : Saved K). p.1) (rw (f, write_atomic) at h))

    sealed_bytes-done :
        (key nonce sealed : Bytes) (t : Tried Bytes)
        → sealed_bytes store cipher codec key nonce t ≡ done sealed
        → (plain : Bytes) × (t ≡ done plain) × (seal cipher key nonce plain ≡ done sealed)
    sealed_bytes-done key nonce sealed (failed e) h = absurd (cc h)
    sealed_bytes-done key nonce sealed (done plain) h = (plain, refl, h)

    load_decoded-current :
        (faults : Faults) (w : World K) (file : CacheFile)
        → file.format_version ≡ cache_format_version
        → load_decoded store cipher codec faults w (some file) ≡ (some file, w)
    unfolding load_decoded
    load_decoded-current faults w file v =
        ap (λ n. if n == cache_format_version then (some file, w) else (none, remove faults w)) v

    decoded-open_file :
        (key raw plain : Bytes) (file : CacheFile)
        → open_file cipher key raw ≡ done plain
        → codec.from_bytes plain ≡ some file
        → decoded store cipher codec key raw ≡ some file
    unfolding decoded
    decoded-open_file key raw plain file o p = ap (parsed store cipher codec) o ∙ p

    load_raw-key :
        (faults : Faults) (w : World K) (raw : Bytes) (outcome : KeyOutcome)
        → faults.read_fails ≡ false
        → store.key false w.keys ≡ (outcome, w.keys)
        → load_raw store cipher codec faults w (some raw)
          ≡ load_with store cipher codec faults w raw outcome
    unfolding load_raw
    load_raw-key faults w raw outcome f k =
        ap
          (λ (p : KeyOutcome × K).
            if faults.read_fails
            then (none, w)
            else load_with store cipher codec faults (record w { keys = p.1 }) raw p.0)
          k
        ∙ ap (λ b. if b then (none, w) else load_with store cipher codec faults w raw outcome) f

    load_found :
        (faults : Faults) (w : World K) (raw key plain : Bytes) (file : CacheFile)
        → w.disk ≡ some raw
        → faults.read_fails ≡ false
        → store.key false w.keys ≡ (got key, w.keys)
        → open_file cipher key raw ≡ done plain
        → codec.from_bytes plain ≡ some file
        → file.format_version ≡ cache_format_version
        → load store cipher codec faults w ≡ (some file, w)
    unfolding load load_with
    load_found faults w raw key plain file d f k o p v =
        ap (load_raw store cipher codec faults w) d
        ∙ load_raw-key faults w raw (got key) f k
        ∙ ap (load_decoded store cipher codec faults w) (decoded-open_file key raw plain file o p)
        ∙ load_decoded-current faults w file v

    save-key :
        (faults : Faults) (nonce : Bytes) (file : CacheFile) (w : World K) (key : Bytes) (ks : K)
        → store.key true w.keys ≡ (got key, ks)
        → save store cipher codec faults nonce file w
          ≡ save_sealed store cipher codec faults
              (record w { keys = ks })
              (sealed_bytes store cipher codec key nonce (codec.to_bytes file))
    unfolding save save_with
    save-key faults nonce file w key ks k =
        ap
          (λ (p : KeyOutcome × K).
            save_with store cipher codec faults (record w { keys = p.1 }) nonce file p.0)
          k

    -- A cache file that was saved is loaded again as it was, where the cipher decrypts what it
    -- encrypted, the bytes of the file read back as that file, the key store hands out again the key
    -- that it handed out, the nonce has 24 bytes, the file is of the current format, and the file system has
    -- no fault.
    pub load-save :
        (decrypts : (key nonce head plain body : Bytes)
          → cipher.encrypt key nonce head plain ≡ some body
          → cipher.decrypt key nonce head body ≡ some plain)
        (faults : Faults) (nonce : Bytes) (file : CacheFile) (w w' : World K) (key : Bytes) (ks : K)
        → faults.write ≡ written
        → faults.read_fails ≡ false
        → length nonce ≡ 24
        → file.format_version ≡ cache_format_version
        → ((plain : Bytes) → codec.to_bytes file ≡ done plain → codec.from_bytes plain ≡ some file)
        → store.key true w.keys ≡ (got key, ks)
        → store.key false ks ≡ (got key, ks)
        → ◌≡◌ {A = Saved K} (save store cipher codec faults nonce file w) (done tt, w')
        → load store cipher codec faults w' ≡ (some file, w')
    load-save decrypts faults nonce file w w' key ks f g n v reads k again h =
        let (sealed, t, e) =
          save_sealed-done faults (record w { keys = ks })
            (sealed_bytes store cipher codec key nonce (codec.to_bytes file)) w' f
            (sym (save-key faults nonce file w key ks k) ∙ h) in
        let (plain, b, s) = sealed_bytes-done key nonce sealed (codec.to_bytes file) t in
        subst (λ u. load store cipher codec faults u ≡ (some file, u)) e
          (load_found faults (with_file (record w { keys = ks }) sealed) sealed key plain file refl
            g again (open_file-seal cipher decrypts key nonce plain sealed n s) (reads plain b) v)
