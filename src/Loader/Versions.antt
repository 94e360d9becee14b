-- ===== src/Loader/Versions.antt =====
-- crates/nyarix-loader/src/version_resolver.rs. Package names are numbers; the versions `V` and the
-- version ranges `R` of the crate `semver` are a parameter.
pub mod Collecting
pub mod Resolving
use nyarix_runtime.Base.{
  ℕ, ◌≡◌, ◌⊎◌, Bool, true, false, ◌&&◌, List, [], ◌∷◌, ◌++◌, Option, none, some, if◌then◌else◌,
  retain,
}
use nyarix_runtime.Base.Maps.{Map, lookup, insert}
use nyarix_runtime.ModuleApi.Versioning.{ApiVersion}

-- What `semver` documents: a range matches a version or not, and the versions are totally ordered.
pub record Semver (V R : Type 0) : Type 0 where
  pub matches : R → V → Bool
  pub leq : V → V → Bool
  pub leq-total : (v w : V) → (leq v w ≡ true) ⊎ (leq w v ≡ true)
  pub leq-trans : (u v w : V) → leq u v ≡ true → leq v w ≡ true → leq u w ≡ true

pub record DependencySpec (R : Type 0) : Type 0 where
  pub version_req : R
  pub optional : Bool

-- What the resolver and the conflict detection read of a manifest.
pub record Manifest (R : Type 0) : Type 0 where
  pub name : ℕ
  pub api_version : ApiVersion
  pub dependencies : Map (DependencySpec R)

pub record Requirement (R : Type 0) : Type 0 where
  pub requirer : ℕ
  pub version_req : R
  pub optional : Bool

pub record VersionConflict (R : Type 0) : Type 0 where
  pub name : ℕ
  pub requirements : List (Requirement R)

pub record ResolvedVersions (V R : Type 0) : Type 0 where
  pub resolved : Map V
  pub conflicts : List (VersionConflict R)
  pub unavailable_optional : List ℕ

abbrev pub or_empty {ℓ} : {A : Type ℓ} → Option (List A) → List A
or_empty none = []
or_empty (some xs) = xs

module _ {R : Type 0} where
  -- `requirements.entry(name).or_default().push(...)`.
  abbrev pub push_requirement :
      ℕ → Requirement R → Map (List (Requirement R)) → Map (List (Requirement R))
  push_requirement name q m = insert name (or_empty (lookup name m) ++ q ∷ []) m

  abbrev pub requirement : ℕ → DependencySpec R → Requirement R
  requirement requirer d = record {
    requirer = requirer;
    version_req = d.version_req;
    optional = d.optional;
  }

  abbrev pub collect_dependencies :
      ℕ → Map (DependencySpec R) → Map (List (Requirement R)) → Map (List (Requirement R))
  collect_dependencies requirer [] m = m
  collect_dependencies requirer ((name, d) ∷ ds) m =
      collect_dependencies requirer ds (push_requirement name (requirement requirer d) m)

  abbrev pub collect : List (Manifest R) → Map (List (Requirement R)) → Map (List (Requirement R))
  collect [] m = m
  collect (x ∷ xs) m = collect xs (collect_dependencies x.name x.dependencies m)

  -- `reqs.iter().all(|req| req.optional)`.
  abbrev pub all_optional : List (Requirement R) → Bool
  all_optional [] = true
  all_optional (q ∷ qs) = q.optional && all_optional qs

module _ {V R : Type 0} (sv : Semver V R) where
  abbrev pub satisfies_all : List (Requirement R) → V → Bool
  satisfies_all [] v = true
  satisfies_all (q ∷ qs) v = sv.matches q.version_req v && satisfies_all qs v

  -- `Iterator::max`: of equal elements the last.
  abbrev pub max_version : List V → Option V
  max_version [] = none
  max_version (v ∷ vs) = elim (max_version vs) [
    | none ↦ some v
    | some w ↦ if sv.leq v w then some w else some v
  ]

  -- One round of the loop over the names that are required.
  unfoldable pub resolve_one :
      List V → ℕ → List (Requirement R) → ResolvedVersions V R → ResolvedVersions V R
  resolve_one versions name reqs out = elim (max_version (retain (satisfies_all reqs) versions)) [
    | some v ↦ record out { resolved = insert name v out.resolved }
    | none ↦
        if all_optional reqs
        then record out { unavailable_optional = out.unavailable_optional ++ name ∷ [] }
        else record out {
          conflicts = out.conflicts ++ record { name = name; requirements = reqs } ∷ [];
        }
  ]

  unfoldable pub resolve_each :
      Map (List V) → Map (List (Requirement R)) → ResolvedVersions V R → ResolvedVersions V R
  unfolding resolve_one
  resolve_each index [] out = out
  resolve_each index ((name, reqs) ∷ rest) out =
      resolve_each index rest (resolve_one (or_empty (lookup name index)) name reqs out)

  unfoldable pub resolve_versions : List (Manifest R) → Map (List V) → ResolvedVersions V R
  unfolding resolve_each
  resolve_versions manifests index =
      resolve_each index (collect manifests [])
        (record { resolved = []; conflicts = []; unavailable_optional = [] })
