-- ===== src/Package/Archive.antt =====
-- crates/nyarix-package/src/archive.rs. An archive, decompressed, is the members that `tar` reads from
-- it in order, with the error that ends the reading if it is broken; the packing itself is left out.
use nyarix_runtime.Base.{
  ℕ, List, [], ◌∷◌, Option, none, some, Result, ok, err, ◌>>=◌, ◌==◌, if◌then◌else◌, length, find,
}
use nyarix_runtime.Package.Signing.{
  Bytes, Entry, same_bytes, Ed25519, signature_member_path, public_key_member_path, verify,
}

-- "manifest.toml".
abbrev pub manifest_path : Bytes
manifest_path = 109 ∷ 97 ∷ 110 ∷ 105 ∷ 102 ∷ 101 ∷ 115 ∷ 116 ∷ 46 ∷ 116 ∷ 111 ∷ 109 ∷ 108 ∷ []

-- `PackageError`; an I/O error and the fault of a manifest are numbers.
pub data PackageError : Type 0 where
  io invalid_manifest : ℕ → PackageError
  signature_failure missing_member : Bytes → PackageError

pub record Tar : Type 0 where
  pub members : List Entry
  pub broken : Option ℕ

-- `PackageReader`, with a manifest of type `M`.
pub record PackageReader (M : Type 0) : Type 0 where
  pub tar : Tar
  pub manifest : M

pub data SignatureStatus : Type 0 where
  unsigned verified invalid : SignatureStatus

-- The file at a path that stands first.
abbrev pub file_at : Bytes → List Entry → Option Bytes
file_at path es = elim (find (λ e. same_bytes e.0 path) es) [
  | none ↦ none
  | some (p, contents) ↦ some contents
]

-- The file at a path that stands last.
abbrev pub last_at : Bytes → List Entry → Option Bytes → Option Bytes
last_at path [] found = found
last_at path (e ∷ es) found = last_at path es (if same_bytes e.0 path then some e.1 else found)

module _ {M : Type 0} where
  unfoldable pub entries : PackageReader M → Result (List Entry) PackageError
  entries reader = elim reader.tar.broken [ none ↦ ok reader.tar.members | some e ↦ err (io e) ]

  unfoldable pub read_entry : PackageReader M → Bytes → Result (Option Bytes) PackageError
  read_entry reader path = elim (file_at path reader.tar.members) [
    | some contents ↦ ok (some contents)
    | none ↦ elim reader.tar.broken [ none ↦ ok none | some e ↦ err (io e) ]
  ]

  -- `PackageReader::open` of the decompressed archive: `from_toml` reads and validates a manifest. The
  -- layout asks for a manifest alone.
  unfoldable pub open_tar :
      (Bytes → Result M PackageError) → Tar → Result (PackageReader M) PackageError
  open_tar from_toml tar = elim tar.broken [
    | some e ↦ err (io e)
    | none ↦ elim (last_at manifest_path tar.members none) [
      | none ↦ err (missing_member manifest_path)
      | some raw ↦ from_toml raw >>= (λ m. ok (record { tar = tar; manifest = m }))
    ]
  ]

module _ {K : Type 0} (ed : Ed25519 K) where
  -- The status for the contents of the two members.
  unfoldable pub status_of : List Entry → Bytes → Bytes → SignatureStatus
  unfolding verify
  status_of es signature key =
      if length signature == 64
      then (if length key == 32
          then elim (ed.from_bytes key) [
            | none ↦ invalid
            | some k ↦ if verify ed es signature k then verified else invalid
          ]
          else invalid)
      else invalid

module _ {M K : Type 0} (ed : Ed25519 K) where
  unfoldable pub signature_status : PackageReader M → Result SignatureStatus PackageError
  unfolding entries status_of
  signature_status reader = elim (entries reader) [
    | err e ↦ err e
    | ok es ↦ elim (file_at signature_member_path es) [
      | none ↦ ok unsigned
      | some signature ↦ elim (file_at public_key_member_path es) [
        | none ↦ ok unsigned
        | some key ↦ ok (status_of ed es signature key)
      ]
    ]
  ]

  unfoldable pub require_valid_signature :
      (M → Bytes) → PackageReader M → Result (Unit {0}) PackageError
  unfolding signature_status
  require_valid_signature name reader = elim (signature_status reader) [
    | err e ↦ err e
    | ok verified ↦ ok tt
    | ok unsigned ↦ err (signature_failure (name reader.manifest))
    | ok invalid ↦ err (signature_failure (name reader.manifest))
  ]
