-- ===== src/Package/Signing.antt =====
-- crates/nyarix-package/src/signing.rs. A path and the contents of a file are lists of bytes.
pub mod Injective
use nyarix_runtime.Base.{
  ℕ, zero, suc, ◌/◌, ◌%◌, Bool, true, false, not, ◌&&◌, ◌||◌, List, [], ◌∷◌, ◌++◌, Option, ◌==◌,
  ltb, if◌then◌else◌, length, retain,
}

abbrev pub Bytes : Type 0
Bytes = List ℕ

-- A member of an archive: its path and its contents.
abbrev pub Entry : Type 0
Entry = Bytes × Bytes

abbrev pub same_bytes : Bytes → Bytes → Bool
same_bytes [] [] = true
same_bytes [] (y ∷ ys) = false
same_bytes (x ∷ xs) [] = false
same_bytes (x ∷ xs) (y ∷ ys) = x == y && same_bytes xs ys

abbrev pub starts_with : Bytes → Bytes → Bool
starts_with xs [] = true
starts_with [] (y ∷ ys) = false
starts_with (x ∷ xs) (y ∷ ys) = x == y && starts_with xs ys

-- "signatures/".
abbrev pub signatures : Bytes
signatures = 115 ∷ 105 ∷ 103 ∷ 110 ∷ 97 ∷ 116 ∷ 117 ∷ 114 ∷ 101 ∷ 115 ∷ 47 ∷ []

-- "signatures/ed25519.sig" and "signatures/ed25519.pub".
abbrev pub signature_member_path : Bytes
signature_member_path =
    signatures ++ (101 ∷ 100 ∷ 50 ∷ 53 ∷ 53 ∷ 49 ∷ 57 ∷ 46 ∷ 115 ∷ 105 ∷ 103 ∷ [])

abbrev pub public_key_member_path : Bytes
public_key_member_path =
    signatures ++ (101 ∷ 100 ∷ 50 ∷ 53 ∷ 53 ∷ 49 ∷ 57 ∷ 46 ∷ 112 ∷ 117 ∷ 98 ∷ [])

-- What `ed25519_dalek` offers: a public key from 32 bytes, if they are one, and the test of a
-- signature of 64 bytes.
pub record Ed25519 (K : Type 0) : Type 0 where
  pub from_bytes : Bytes → Option K
  pub to_bytes : K → Bytes
  pub verify : K → Bytes → Bytes → Bool

-- The order of paths, byte for byte.
abbrev pub before : Bytes → Bytes → Bool
before [] ys = true
before (x ∷ xs) [] = false
before (x ∷ xs) (y ∷ ys) = ltb x y || x == y && before xs ys

-- `sort_unstable_by_key`: of entries with one path the order is that of the archive here.
unfoldable pub insert_by_path : Entry → List Entry → List Entry
insert_by_path e [] = e ∷ []
insert_by_path e (f ∷ fs) = if before e.0 f.0 then e ∷ f ∷ fs else f ∷ insert_by_path e fs

unfoldable pub sort_by_path : List Entry → List Entry
unfolding insert_by_path
sort_by_path [] = []
sort_by_path (e ∷ es) = insert_by_path e (sort_by_path es)

-- The entries that a signature covers.
abbrev pub covered : List Entry → List Entry
covered es = retain (λ e. not (starts_with e.0 signatures)) es

-- The lowest `w` bytes of a number, the lowest first: `to_le_bytes`.
abbrev pub le_bytes : ℕ → ℕ → Bytes
le_bytes zero n = []
le_bytes (suc w) n = n % 256 ∷ le_bytes w (n / 256)

unfoldable pub serialize : List Entry → Bytes
serialize [] = []
serialize (e ∷ es) = e.0 ++ 0 ∷ (le_bytes 8 (length e.1) ++ (e.1 ++ serialize es))

unfoldable pub signable_bytes : List Entry → Bytes
unfolding serialize sort_by_path
signable_bytes es = serialize (sort_by_path (covered es))

unfoldable pub verify : {K : Type 0} → Ed25519 K → List Entry → Bytes → K → Bool
unfolding signable_bytes
verify ed es signature key = ed.verify key (signable_bytes es) signature
