-- ===== src/Cache/KeyStore.antt =====
-- src/cache/keystore.rs: where the cache key is kept. The keyring of the desktop and the random bytes of
-- a new key are parameters.
use cosmic_pass.Base.{
  ℕ, Bool, true, false, not, ◌&&◌, Option, none, some, List, [], ◌∷◌, if◌then◌else◌, ◌==◌, is_some,
  length,
}
use cosmic_pass.Cache.{CacheError, Tried, done, failed}
use cosmic_pass.Cache.Crypto.{Bytes}

pub data KeyState : Type 0 where
  missing unavailable : KeyState

pub data KeyOutcome : Type 0 where
  got : Bytes → KeyOutcome
  lacking : KeyState → KeyOutcome

-- The trait, over the state `K` of a store: whether a missing key is to be made, and what `delete` says.
pub record KeyStore (K : Type 0) : Type 0 where
  pub key : Bool → K → KeyOutcome × K
  pub delete : K → Option CacheError × K

-- `MemoryKeyStore`.
pub record Memory : Type 0 where
  pub slot : Option Bytes
  pub is_unavailable : Bool

abbrev outcome_of : Option Bytes → KeyOutcome
outcome_of none = lacking missing
outcome_of (some key) = got key

abbrev filled_slot : Bytes → Bool → Option Bytes → Option Bytes
filled_slot fresh create slot = if not (is_some slot) && create then some fresh else slot

unfoldable pub memory_key : Bytes → Bool → Memory → KeyOutcome × Memory
memory_key fresh create m =
    let slot = filled_slot fresh create m.slot in
    if m.is_unavailable
    then (lacking unavailable, m)
    else (outcome_of slot, record m { slot = slot })

unfoldable pub memory_delete : Memory → Option CacheError × Memory
memory_delete m = (none, record m { slot = none })

unfoldable pub memory_store : Bytes → KeyStore Memory
unfolding memory_key memory_delete
memory_store fresh = record { key = memory_key fresh; delete = memory_delete }

abbrev pub key_len : ℕ
key_len = 32

-- What the keyring of the desktop answers to the calls that are made of it.
pub record KeyringItem : Type 0 where
  pub item_is_locked : Tried Bool
  pub secret : Tried Bytes

pub record Keyring : Type 0 where
  pub connected : Tried (Unit {0})
  pub is_locked : Tried Bool
  pub search_items : Tried (List KeyringItem)
  pub create_item : Tried (Unit {0})
  pub deleted : Tried (Unit {0})

abbrev pub and_then_tried : {A B : Type 0} → Tried A → (A → Tried B) → Tried B
and_then_tried (done a) f = f a
and_then_tried (failed e) f = failed e

unfoldable pub stored_key : KeyringItem → Tried KeyOutcome
stored_key item = and_then_tried item.item_is_locked (λ locked.
    let read = and_then_tried item.secret (λ bytes.
      if length bytes == key_len
      then done (got bytes)
      else failed (CacheError.keyring "stored key has the wrong length")) in
    if locked then done (lacking unavailable) else read)

unfoldable pub new_key : Keyring → Bytes → Bool → Tried KeyOutcome
new_key ring fresh false = done (lacking missing)
new_key ring fresh true = and_then_tried ring.create_item (λ u. done (got fresh))

unfoldable pub found_key : Keyring → Bytes → Bool → List KeyringItem → Tried KeyOutcome
unfolding stored_key new_key
found_key ring fresh create [] = new_key ring fresh create
found_key ring fresh create (item ∷ items) = stored_key item

-- `Oo7KeyStore::key_inner`.
unfoldable pub key_inner : Keyring → Bytes → Bool → Tried KeyOutcome
unfolding found_key
key_inner ring fresh create = and_then_tried ring.connected (λ u.
    and_then_tried ring.is_locked (λ locked.
      let found = and_then_tried ring.search_items (found_key ring fresh create) in
      if locked then done (lacking unavailable) else found))

abbrev outcome_or : Tried KeyOutcome → KeyOutcome
outcome_or (done o) = o
outcome_or (failed e) = lacking unavailable

-- `Oo7KeyStore::key` and `delete`, given whether the keyring is disabled.
unfoldable pub oo7_key : Bool → Keyring → Bytes → Bool → KeyOutcome
unfolding key_inner
oo7_key disabled ring fresh create =
    if disabled then lacking unavailable else outcome_or (key_inner ring fresh create)

unfoldable pub oo7_delete : Bool → Keyring → Tried (Unit {0})
oo7_delete disabled ring =
    if disabled then done tt else and_then_tried ring.connected (λ u. ring.deleted)
