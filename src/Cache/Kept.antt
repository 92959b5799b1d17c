-- ===== src/Cache/Kept.antt =====
-- src/cache/store.rs: which files loading leaves alone.
use cosmic_pass.Base.{
  ℕ, ◌≡◌, refl, sym, ◌∙◌, ap, true, false, Option, none, some, ◌==◌, arith, List, [], ◌∷◌, ◌⊎◌,
  Bool-cases, inl, inr,
}
use cosmic_pass.Domain.Items.{CacheFile, cache_format_version}
use cosmic_pass.Cache.Crypto.{Bytes, Cipher}
use cosmic_pass.Cache.KeyStore.{KeyStore, missing, unavailable, KeyOutcome, got, lacking}
use cosmic_pass.Cache.Store.{Faults, Codec, World, load, load_raw, load_with, load_decoded, decoded}

abbrev Loaded : Type 0 → Type 0
Loaded K = Option CacheFile × World K

-- An answer that is a file is of the current format, and left the disk as it was.
abbrev Current : {K : Type 0} → World K → CacheFile → World K → Type 0
Current w file w' = (file.format_version ≡ cache_format_version) × (w'.disk ≡ w.disk)

abbrev version_in : Option CacheFile → ℕ
version_in none = 0
version_in (some f) = f.format_version

ap_pair :
    {d d' : Option Bytes} {n n' : ℕ} → d ≡ d' → n ≡ n' → ◌≡◌ {A = Option Bytes × ℕ} (d, n) (d', n')
ap_pair h k = rw (h, k) refl

current : (n : ℕ) → n == cache_format_version ≡ true → n ≡ cache_format_version
current n h = ground arith

module _ {K : Type 0} (store : KeyStore K) (cipher : Cipher) (codec : Codec) where
  load_decoded-Current :
      (faults : Faults) (w w' : World K) (o : Option CacheFile) (file : CacheFile)
      → ◌≡◌ {A = Loaded K} (load_decoded store cipher codec faults w o) (some file, w')
      → Current w file w'
  unfolding load_decoded
  load_decoded-Current faults w w' none file h = absurd (cc (ap (λ (p : Loaded K). p.0) h))
  load_decoded-Current faults w w' (some f) file h =
      elim (Bool-cases (f.format_version == cache_format_version)) [
        | inl e ↦
            let q = rw (e, load_decoded) at h in
            (
              ap (λ (p : Loaded K). version_in p.0) (sym q) ∙ current f.format_version e,
              ap (λ (p : Loaded K). p.1.disk) (sym q),
            )
        | inr e ↦ absurd (cc (ap (λ (p : Loaded K). p.0) (rw (e, load_decoded) at h)))
      ]

  load_with-Current :
      (faults : Faults) (w w' : World K) (raw : Bytes) (outcome : KeyOutcome) (file : CacheFile)
      → ◌≡◌ {A = Loaded K} (load_with store cipher codec faults w raw outcome) (some file, w')
      → Current w file w'
  unfolding load_with
  load_with-Current faults w w' raw (lacking unavailable) file h =
      absurd (cc (ap (λ (p : Loaded K). p.0) h))
  load_with-Current faults w w' raw (lacking missing) file h =
      absurd (cc (ap (λ (p : Loaded K). p.0) h))
  load_with-Current faults w w' raw (got key) file h =
      load_decoded-Current faults w w' (decoded store cipher codec key raw) file h

  load_raw-Current :
      (faults : Faults) (w w' : World K) (o : Option Bytes) (file : CacheFile)
      → ◌≡◌ {A = Loaded K} (load_raw store cipher codec faults w o) (some file, w')
      → Current w file w'
  unfolding load_raw
  load_raw-Current faults w w' none file h = absurd (cc (ap (λ (p : Loaded K). p.0) h))
  load_raw-Current faults w w' (some raw) file h = elim (Bool-cases faults.read_fails) [
    | inl e ↦ absurd (cc (ap (λ (p : Loaded K). p.0) (rw (e, load_raw) at h)))
    | inr e ↦
        load_with-Current faults (record w { keys = (store.key false w.keys).1 }) w' raw
          (store.key false w.keys).0 file (rw (e, load_raw) at h)
  ]

  -- A file that loading hands out is of the current format, and loading has left the disk as it was.
  load-Current :
      (faults : Faults) (w w' : World K) (file : CacheFile)
      → ◌≡◌ {A = Loaded K} (load store cipher codec faults w) (some file, w')
      → (file.format_version ≡ cache_format_version) × (w'.disk ≡ w.disk)
  unfolding load
  load-Current faults w w' file h = load_raw-Current faults w w' w.disk file h

  -- A load that cannot get at the file: reading it fails, or the keyring is out of reach.
  abbrev pub IsCutOff : Faults × K → Type 0
  IsCutOff (faults, keys) =
      (faults.read_fails ≡ true) ⊎ ((store.key false keys).0 ≡ lacking unavailable)

  abbrev pub AllCutOff : List (Faults × K) → Type 0
  AllCutOff [] = Unit {0}
  AllCutOff (try ∷ tries) = IsCutOff try × AllCutOff tries

  -- Loads, each with its faults and with what the key store is then.
  unfoldable pub loads : List (Faults × K) → World K → World K
  loads [] w = w
  loads ((faults, keys) ∷ tries) w =
      loads tries (load store cipher codec faults (record w { keys = keys })).1

  -- The file on the disk, and how often one was written.
  abbrev Stays : World K → World K → Type 0
  Stays w w' = (w'.disk ≡ w.disk) × (w'.writes ≡ w.writes)

  load_raw-Stays :
      (faults : Faults) (w : World K) (o : Option Bytes)
      → IsCutOff (faults, w.keys)
      → Stays w (load_raw store cipher codec faults w o).1
  unfolding load_raw load_with
  load_raw-Stays faults w none h = (refl, refl)
  load_raw-Stays faults w (some raw) (inl e) = rw e (refl, refl)
  load_raw-Stays faults w (some raw) (inr h) = elim (Bool-cases faults.read_fails) [
    | inl e ↦ rw e (refl, refl)
    | inr e ↦ rw (e, h) (refl, refl)
  ]

  loads-Stays :
      (tries : List (Faults × K)) (w : World K) → AllCutOff tries → Stays w (loads tries w)
  unfolding loads load
  loads-Stays [] w h = (refl, refl)
  loads-Stays ((faults, keys) ∷ tries) w (h, hs) =
      let before = record w { keys = keys } in
      let (d, n) = load_raw-Stays faults before w.disk h in
      let (d', n') = loads-Stays tries (load store cipher codec faults before).1 hs in
      (d' ∙ d, n' ∙ n)

  -- Loads that cannot get at the file, because reading it fails or the keyring is out of reach, leave a
  -- later load as it would have been without them: it gives the same file, and leaves the same world.
  pub load-loads :
      (tries : List (Faults × K)) (w : World K) (faults : Faults) (keys : K)
      → AllCutOff tries
      → load store cipher codec faults (record (loads tries w) { keys = keys })
        ≡ load store cipher codec faults (record w { keys = keys })
  load-loads tries w faults keys h =
      let (d, n) = loads-Stays tries w h in
      ap
        (λ (p : Option Bytes × ℕ).
          load store cipher codec faults (record { disk = p.0; keys = keys; writes = p.1 }))
        (ap_pair d n)
