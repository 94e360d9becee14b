-- ===== src/ModuleApi/Fallback.antt =====
-- crates/nyarix-module-api/src/fallback.rs. A module's name is a number.
pub mod Choice
use nyarix_runtime.Base.{ℕ, Bool, List, Option, none, some, find}
use nyarix_runtime.ModuleApi.Versioning.{ApiVersion, equal, is_compatible}

pub data Resolution : Type 0 where
  exact_match compatible_version fallback : ℕ → Resolution
  incompatible : Resolution

-- What is left when no candidate is compatible.
abbrev pub last_resort : Option ℕ → Resolution
last_resort none = incompatible
last_resort (some name) = fallback name

unfoldable pub resolve : ApiVersion → List (ℕ × ApiVersion) → Option ℕ → Resolution
unfolding is_compatible
resolve required candidates alternative = elim (find (λ c. equal c.1 required) candidates) [
  | some (name, v) ↦ exact_match name
  | none ↦ elim (find (λ c. is_compatible required c.1) candidates) [
    | some (name, v) ↦ compatible_version name
    | none ↦ last_resort alternative
  ]
]
