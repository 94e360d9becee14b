-- ===== src/ModuleApi/Versioning.antt =====
-- crates/nyarix-module-api/src/versioning.rs.
use nyarix_runtime.Base.{ℕ, Bool, ◌&&◌, leb, ◌==◌}

-- Both numbers are 16 bits wide; they are only compared.
pub record ApiVersion : Type 0 where
  pub major : ℕ
  pub minor : ℕ

unfoldable pub new : ℕ → ℕ → ApiVersion
new major minor = record { major = major; minor = minor }

-- `==`, which the source derives.
abbrev pub equal : ApiVersion → ApiVersion → Bool
equal v w = (v.major == w.major) && (v.minor == w.minor)

unfoldable pub is_compatible : ApiVersion → ApiVersion → Bool
is_compatible required provided =
    (required.major == provided.major) && leb required.minor provided.minor
