-- ===== src/Loader/Conflicts.antt =====
-- crates/nyarix-loader/src/conflict.rs, without the texts of the messages.
pub mod Grounds
use nyarix_runtime.Base.{ℕ, Bool, true, false, not, List, [], ◌∷◌, ◌++◌, Option, if◌then◌else◌, map}
use nyarix_runtime.Base.Maps.{Map, lookup}
use nyarix_runtime.ModuleApi.Versioning.{ApiVersion, is_compatible}
use nyarix_runtime.Loader.Versions.{
  Semver, Manifest, Requirement, VersionConflict, or_empty, resolve_versions,
}

pub data Conflict (R : Type 0) : Type 0 where
  incompatible_versions : ℕ → List (Requirement R) → Conflict R
  missing_dependency : ℕ → List ℕ → Conflict R
  incompatible_api_version : ℕ → ApiVersion → ApiVersion → Conflict R

unfoldable pub api_conflicts : {R : Type 0} → ApiVersion → List (Manifest R) → List (Conflict R)
unfolding is_compatible
api_conflicts required [] = []
api_conflicts required (m ∷ ms) =
    if not (is_compatible required m.api_version)
    then incompatible_api_version m.name required m.api_version ∷ api_conflicts required ms
    else api_conflicts required ms

module _ {V R : Type 0} where
  -- The category of a conflict of the resolver, by the versions in the index.
  abbrev pub categorize : List V → VersionConflict R → Conflict R
  categorize [] c = missing_dependency c.name (map (λ r. r.requirer) c.requirements)
  categorize (v ∷ vs) c = incompatible_versions c.name c.requirements

  abbrev pub categorize_all : Map (List V) → List (VersionConflict R) → List (Conflict R)
  categorize_all index [] = []
  categorize_all index (c ∷ cs) =
      categorize (or_empty (lookup c.name index)) c ∷ categorize_all index cs

  unfoldable pub detect_conflicts :
      Semver V R → List (Manifest R) → Map (List V) → ApiVersion → List (Conflict R)
  unfolding resolve_versions api_conflicts
  detect_conflicts sv manifests index required =
      categorize_all index (resolve_versions sv manifests index).conflicts
      ++ api_conflicts required manifests
