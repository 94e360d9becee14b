-- ===== src/Package/Trust.antt =====
-- crates/nyarix-package/src/trust.rs. The store is an association list from the bytes of a key.
pub mod Levels
use nyarix_runtime.Base.{
  ℕ, Bool, List, [], ◌∷◌, Option, none, some, Result, ok, err, ◌==◌, if◌then◌else◌, length,
}
use nyarix_runtime.Package.Signing.{Bytes, same_bytes, Ed25519, public_key_member_path}
use nyarix_runtime.Package.Archive.{
  PackageError, PackageReader, SignatureStatus, verified, signature_status, read_entry,
}

pub data TrustLevel : Type 0 where
  system official community unknown local experimental : TrustLevel

pub record TrustStore : Type 0 where
  pub known_keys : List (Bytes × TrustLevel)

abbrev pub key_level : Bytes → List (Bytes × TrustLevel) → Option TrustLevel
key_level k [] = none
key_level k ((j, level) ∷ keys) = if same_bytes j k then some level else key_level k keys

abbrev pub set_level : Bytes → TrustLevel → List (Bytes × TrustLevel) → List (Bytes × TrustLevel)
set_level k level [] = (k, level) ∷ []
set_level k level ((j, old) ∷ keys) =
    if same_bytes j k then (j, level) ∷ keys else (j, old) ∷ set_level k level keys

abbrev pub or_unknown : Option TrustLevel → TrustLevel
or_unknown none = unknown
or_unknown (some level) = level

module _ {K : Type 0} (ed : Ed25519 K) where
  unfoldable pub trust : TrustStore → K → TrustLevel → TrustStore
  trust store key level = record { known_keys = set_level (ed.to_bytes key) level store.known_keys }

  unfoldable pub level_for : TrustStore → K → Option TrustLevel
  level_for store key = key_level (ed.to_bytes key) store.known_keys

  -- The level of the key with the given bytes.
  unfoldable pub level_of_bytes : TrustStore → Bytes → TrustLevel
  unfolding level_for
  level_of_bytes store bytes =
      if length bytes == 32
      then elim (ed.from_bytes bytes) [
        | none ↦ unknown
        | some key ↦ or_unknown (level_for store key)
      ]
      else unknown

  unfoldable pub classify :
      {M : Type 0} → PackageReader M → TrustStore → Result TrustLevel PackageError
  unfolding level_of_bytes signature_status read_entry
  classify reader store = elim (signature_status ed reader) [
    | err e ↦ err e
    | ok verified ↦ elim (read_entry reader public_key_member_path) [
      | err e ↦ err e
      | ok none ↦ ok unknown
      | ok (some bytes) ↦ ok (level_of_bytes store bytes)
    ]
    | ok _ ↦ ok unknown
  ]
