-- ===== src/Tests/LoaderTests.antt =====
-- The loader and the module interface at concrete inputs.
use nyarix_runtime.Base.{
  ℕ, ◌≡◌, ◌≢◌, ◌≤◌, ◌⊎◌, arith, Bool, true, false, List, [], ◌∷◌, ◌++◌, none, some, get_elem?,
  Result, ok, leb,
}
use nyarix_runtime.Base.Maps.{Map, lookup}
use nyarix_runtime.ModuleApi.Versioning.{ApiVersion, is_compatible}
use nyarix_runtime.ModuleApi.Fallback.{resolve}
use nyarix_runtime.ModuleApi.Fallback.Choice.{Justified, resolve-Justified}
use nyarix_runtime.Loader.Dependencies.{DependencyGraph, load_order}
use nyarix_runtime.Loader.Dependencies.LoadOrder.{Order, load_order-Order}
use nyarix_runtime.Loader.Rollback.{
  RollbackHistory, installed, Read, present, ValidationReport, rollback_package,
}
use nyarix_runtime.Loader.Rollback.Alternation.{Switched, rollback_package-Switched}
use nyarix_runtime.Loader.Cache.{CacheEntry, PackageCache, evict_to_fit, total_size}
use nyarix_runtime.Loader.Cache.Eviction.{ByAge, Forced, count, evict_to_fit-Forced}
use nyarix_runtime.Loader.Versions.{Semver, Manifest, or_empty, all_optional, resolve_versions}
use nyarix_runtime.Loader.Versions.Collecting.{wanted}
use nyarix_runtime.Loader.Conflicts.{incompatible_api_version, detect_conflicts}
use nyarix_runtime.Loader.Conflicts.Grounds.{Grounded, Reported, detect_conflicts-Grounded}
use nyarix_runtime.Loader.Versions.Resolving.{
  AllOf, Unsatisfied, Decided, covers, resolve_versions-Decided,
}

abbrev version : ℕ → ℕ → ApiVersion
version major minor = record { major = major; minor = minor }

abbrev candidates : List (ℕ × ApiVersion)
candidates = (7, version 1 0) ∷ (8, version 1 3) ∷ []

resolve-Justified_example :
    Justified (version 1 2) candidates none (resolve (version 1 2) candidates none)
resolve-Justified_example = resolve-Justified (version 1 2) candidates none

-- Package 1 needs 2 and 3, and 2 needs 3.
abbrev packages : DependencyGraph
packages = record { edges = (1, 2 ∷ 3 ∷ []) ∷ (2, 3 ∷ []) ∷ (3, []) ∷ [] }

load_order-Order_example : Order packages.edges (load_order packages)
load_order-Order_example = load_order-Order packages

-- Two versions of one package were installed.
abbrev history : RollbackHistory
history = record {
  entries =
      record { name = 1; version = 12; kind = installed; at = 5 }
      ∷ record { name = 1; version = 11; kind = installed; at = 4 }
      ∷ [];
}

abbrev archive : ℕ → ℕ → Read ℕ
archive name v = present v

abbrev accept : ℕ → Result (ValidationReport ℕ) ℕ
accept data_ = ok (record { conflicts = []; platform_supported = true })

rollback_package-Switched_example : Switched history 1 (rollback_package archive accept 6 history 1)
rollback_package-Switched_example = rollback_package-Switched archive accept 6 history 1

abbrev cache : PackageCache
cache = record {
  entries =
      record { name = 1; version = 1; path = 1; installed_at = 9; size_bytes = 40 }
      ∷ record { name = 2; version = 1; path = 2; installed_at = 3; size_bytes = 70 }
      ∷ [];
}

evict_to_fit-Forced_example :
    let (out, c) = evict_to_fit cache 50 in
    (total_size c ≤ 50)
    × ByAge (out ++ c.entries)
    × ((p : CacheEntry → Bool) → count p (out ++ c.entries) ≡ count p cache.entries)
    × Forced 50 out c.entries
evict_to_fit-Forced_example = evict_to_fit-Forced cache 50

-- Versions are numbers, and a range is the lowest version that it allows.
abbrev numbers : Semver ℕ ℕ
numbers = record {
  matches = λ r v. leb r v;
  leq = leb;
  leq-total = λ v w. leb_total v w;
  leq-trans = λ u v w e f. ground arith;
}
  where
    leb_total : (v w : ℕ) → (leb v w ≡ true) ⊎ (leb w v ≡ true)
    leb_total v w = ground arith

abbrev manifests : List (Manifest ℕ)
manifests =
    record {
      name = 1;
      api_version = version 1 0;
      dependencies = (2, record { version_req = 3; optional = false }) ∷ [];
    }
    ∷ []

abbrev index : Map (List ℕ)
index = (2, 2 ∷ 4 ∷ 3 ∷ []) ∷ []

resolve_versions-Decided_example :
    Decided numbers manifests index (resolve_versions numbers manifests index)
    × ((k : ℕ)
        → wanted k manifests ≢ []
        → covers numbers manifests index (resolve_versions numbers manifests index) k ≡ true)
resolve_versions-Decided_example = resolve_versions-Decided numbers manifests index

detect_conflicts-Grounded_example :
    AllOf
      (Grounded numbers manifests index (version 1 1))
      (detect_conflicts numbers manifests index (version 1 1))
    × ((name : ℕ)
        → Unsatisfied numbers (or_empty (lookup name index)) (wanted name manifests)
        → all_optional (wanted name manifests) ≡ false
        → Reported numbers manifests index
            (version 1 1)
            name
            (detect_conflicts numbers manifests index (version 1 1)))
    × ((i : ℕ) (m : Manifest ℕ)
        → get_elem? manifests i ≡ some m
        → is_compatible (version 1 1) m.api_version ≡ false
        → (j : ℕ) × (get_elem? (detect_conflicts numbers manifests index (version 1 1)) j
            ≡ some (incompatible_api_version m.name (version 1 1) m.api_version)))
detect_conflicts-Grounded_example = detect_conflicts-Grounded numbers manifests index (version 1 1)

abbrev entry : CacheEntry
entry = record { name = 2; version = 1; path = 5; installed_at = 11; size_bytes = 30 }
