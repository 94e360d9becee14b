-- ===== src/Tests/PackageTests.antt =====
-- Signed packages at concrete inputs.
use nyarix_runtime.Base.{
  ℕ, zero, suc, ◌%◌, ◌≡◌, ◌≢◌, ◌↔◌, refl, arith, Bool, List, [], ◌∷◌, none, some, ok, length, any,
}
use nyarix_runtime.Package.Signing.{
  Bytes, Entry, Ed25519, starts_with, signature_member_path, public_key_member_path, covered,
  sort_by_path, signable_bytes,
}
use nyarix_runtime.Package.Signing.Injective.{signable_bytes-covered}
use nyarix_runtime.Package.Archive.{PackageReader, manifest_path}
use nyarix_runtime.Package.Trust.{official, unknown, TrustStore, classify}
use nyarix_runtime.Package.Trust.Levels.{Signed, classify-Signed}

-- Any 32 bytes are a key, and a signature begins with the number of signed bytes.
abbrev checksum : Ed25519 Bytes
checksum = record {
  from_bytes = λ b. some b;
  to_bytes = λ b. b;
  verify = λ key message signature. starts_with signature (length message % 256 ∷ []);
}

abbrev manifest : Entry
manifest = (manifest_path, 1 ∷ 2 ∷ [])

abbrev payload : Entry
payload = (112 ∷ [], 3 ∷ [])

abbrev signature : Entry
signature = (signature_member_path, 9 ∷ [])

signable_bytes-covered_example :
    (sort_by_path (covered (payload ∷ manifest ∷ signature ∷ []))
      ≡ sort_by_path (covered (manifest ∷ payload ∷ [])))
    × ((P : Entry → Bool)
        → any P (covered (payload ∷ manifest ∷ signature ∷ []))
          ≡ any P (covered (manifest ∷ payload ∷ [])))
unfolding signable_bytes
signable_bytes-covered_example =
    signable_bytes-covered (payload ∷ manifest ∷ signature ∷ []) (manifest ∷ payload ∷ [])
      (ground arith) (ground arith) refl

abbrev filled : ℕ → ℕ → Bytes
filled zero b = []
filled (suc n) b = b ∷ filled n b

-- The two covered files make 35 bytes.
abbrev signed : List Entry
signed =
    manifest
    ∷ payload
    ∷ (signature_member_path, 35 ∷ filled 63 0)
    ∷ (public_key_member_path, filled 32 7)
    ∷ []

abbrev reader : PackageReader ℕ
reader = record { tar = record { members = signed; broken = none }; manifest = 0 }

abbrev store : TrustStore
store = record { known_keys = (filled 32 7, official) ∷ [] }

official_known : official ≢ unknown
official_known e = cc e

classify-Signed_example :
    (classify checksum reader store ≡ ok official) ↔ Signed checksum reader store official
classify-Signed_example = classify-Signed checksum reader store official official_known

-- This package is signed with a key that the store knows.
reader_official : classify checksum reader store ≡ ok official
unfolding classify
reader_official = refl
