-- ===== src/Package/Trust/Levels.antt =====
-- Which packages are trusted.
use nyarix_runtime.Base.{
  ◌≡◌, ◌≢◌, ◌↔◌, refl, inl, inr, true, none, some, ok, arith, ◌==◌, ==_iff, length, Bool-cases,
  Option-cases,
}
use nyarix_runtime.Package.Signing.{
  Bytes, Ed25519, signature_member_path, public_key_member_path, verify,
}
use nyarix_runtime.Package.Archive.{
  PackageReader, file_at, SignatureStatus, unsigned, verified, invalid, entries, read_entry,
  status_of, signature_status,
}
use nyarix_runtime.Package.Trust.{
  TrustLevel, unknown, TrustStore, level_for, level_of_bytes, or_unknown, classify,
}

module _ {K : Type 0} (ed : Ed25519 K) where
  level_lem :
      (store : TrustStore) (bytes : Bytes) (key : K)
      → length bytes ≡ 32
      → ed.from_bytes bytes ≡ some key
      → level_of_bytes ed store bytes ≡ or_unknown (level_for ed store key)
  unfolding level_of_bytes
  level_lem store bytes key l e = rw (level_of_bytes, l, e) refl

module _ {M K : Type 0} (ed : Ed25519 K) where
  -- The archive is whole, and has a signature of the files that it covers, which verifies against the
  -- public key beside it, and the store knows this key at the level.
  pub record Signed (reader : PackageReader M) (store : TrustStore) (level : TrustLevel)
      : Type 0 where
    pub signature : Bytes
    pub bytes : Bytes
    pub key : K
    pub whole : reader.tar.broken ≡ none
    pub has_signature : file_at signature_member_path reader.tar.members ≡ some signature
    pub has_key : file_at public_key_member_path reader.tar.members ≡ some bytes
    pub signature_length : length signature ≡ 64
    pub key_length : length bytes ≡ 32
    pub decodes : ed.from_bytes bytes ≡ some key
    pub verifies : verify ed reader.tar.members signature key ≡ true
    pub known : level_for ed store key ≡ some level

  read_lem :
      (reader : PackageReader M) (path bytes : Bytes)
      → file_at path reader.tar.members ≡ some bytes
      → read_entry reader path ≡ ok (some bytes)
  unfolding read_entry
  read_lem reader path bytes e = rw (read_entry, e) refl

  status_lem :
      (reader : PackageReader M) (signature bytes : Bytes)
      → reader.tar.broken ≡ none
      → file_at signature_member_path reader.tar.members ≡ some signature
      → file_at public_key_member_path reader.tar.members ≡ some bytes
      → signature_status ed reader ≡ ok (status_of ed reader.tar.members signature bytes)
  unfolding signature_status entries
  status_lem reader signature bytes w s k = rw (signature_status, w, s, k) refl

  classified :
      (reader : PackageReader M) (store : TrustStore) (level : TrustLevel)
      → Signed reader store level
      → classify ed reader store ≡ ok level
  unfolding classify status_of
  classified reader store level s =
      let status : status_of ed reader.tar.members s.signature s.bytes ≡ verified =
        rw (status_of, s.signature_length, s.key_length, s.decodes, s.verifies) refl in
      rw
        (
          classify,
          status_lem reader s.signature s.bytes s.whole s.has_signature s.has_key,
          status,
          read_lem reader public_key_member_path s.bytes s.has_key,
          level_lem ed store s.bytes s.key s.key_length s.decodes,
          s.known,
        )
        refl

  status_of_lem :
      (reader : PackageReader M) (signature bytes : Bytes)
      → status_of ed reader.tar.members signature bytes ≡ verified
      → (length signature ≡ 64)
        × (length bytes ≡ 32)
        × ((key : K) × (ed.from_bytes bytes ≡ some key)
            × (verify ed reader.tar.members signature key ≡ true))
  unfolding status_of
  status_of_lem reader signature bytes h = elim (Bool-cases (length signature == 64)) [
    | inr no_ ↦ absurd (ground (arith, no_, h))
    | inl l ↦ elim (Bool-cases (length bytes == 32)) [
      | inr no_ ↦ absurd (ground (arith, l, no_, h))
      | inl k ↦ elim (Option-cases (ed.from_bytes bytes)) [
        | inl e ↦ absurd (ground (arith, l, k, e, h))
        | inr (key, e) ↦ (
          (==_iff (length signature) 64).0 l,
          (==_iff (length bytes) 32).0 k,
          (key, e, ground (arith, l, k, e, h)),
        )
      ]
    ]
  ]

  classify_lem :
      (reader : PackageReader M) (store : TrustStore) (level : TrustLevel)
      (status : SignatureStatus)
      → level ≢ unknown
      → signature_status ed reader ≡ ok status
      → classify ed reader store ≡ ok level
      → status ≡ verified
  unfolding classify
  classify_lem reader store level verified ne e h = refl
  classify_lem reader store level unsigned ne e h = absurd (ne (ground (arith, e, h)))
  classify_lem reader store level invalid ne e h = absurd (ne (ground (arith, e, h)))

  level_known :
      (reader : PackageReader M) (store : TrustStore) (level : TrustLevel) (bytes : Bytes) (key : K)
      → level ≢ unknown
      → signature_status ed reader ≡ ok verified
      → file_at public_key_member_path reader.tar.members ≡ some bytes
      → level_of_bytes ed store bytes ≡ or_unknown (level_for ed store key)
      → classify ed reader store ≡ ok level
      → level_for ed store key ≡ some level
  unfolding classify
  level_known reader store level bytes key ne e k l h =
      elim (Option-cases (level_for ed store key)) [
        | inl none_ ↦
            absurd
              (ne (ground (arith, e, read_lem reader public_key_member_path bytes k, l, none_, h)))
        | inr (found, f) ↦
            ground (arith, e, read_lem reader public_key_member_path bytes k, l, f, h)
      ]

  -- What an answer other than "unknown" rests on.
  trusted :
      (reader : PackageReader M) (store : TrustStore) (level : TrustLevel)
      → level ≢ unknown
      → classify ed reader store ≡ ok level
      → Signed reader store level
  unfolding classify signature_status entries
  trusted reader store level ne h = elim (Option-cases reader.tar.broken) [
    | inr (e, b) ↦ absurd (ground (arith, b, h))
    | inl w ↦ elim (Option-cases (file_at signature_member_path reader.tar.members)) [
      | inl s ↦ absurd (ne (ground (arith, w, s, h)))
      | inr (signature, s) ↦
          elim (Option-cases (file_at public_key_member_path reader.tar.members)) [
            | inl k ↦ absurd (ne (ground (arith, w, s, k, h)))
            | inr (bytes, k) ↦
                let status = status_lem reader signature bytes w s k in
                let good = classify_lem reader store level _ ne status h in
                let (sl, kl, (key, d, v)) = status_of_lem reader signature bytes good in
                record {
                  signature = signature;
                  bytes = bytes;
                  key = key;
                  whole = w;
                  has_signature = s;
                  has_key = k;
                  signature_length = sl;
                  key_length = kl;
                  decodes = d;
                  verifies = v;
                  known =
                      level_known reader store level bytes key ne (rw good at status) k
                        (level_lem ed store bytes key kl d) h;
                }
          ]
    ]
  ]

  -- A package is given a level other than "unknown" exactly if its archive can be read to the end, has
  -- a signature of 64 bytes and a public key of 32 bytes, the signature of the covered files verifies
  -- against this key, and the store knows the key at this level.
  pub classify-Signed :
      (reader : PackageReader M) (store : TrustStore) (level : TrustLevel)
      → level ≢ unknown
      → (classify ed reader store ≡ ok level) ↔ Signed reader store level
  classify-Signed reader store level ne =
      (trusted reader store level ne, classified reader store level)
