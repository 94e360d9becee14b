-- ===== src/Loader/Dependencies.antt =====
-- crates/nyarix-loader/src/dependency_graph.rs. The package names are numbered in the order of the
-- strings, so a name is a number.
pub mod Ordering
pub mod Visiting
pub mod Calls
pub mod LoadOrder
use nyarix_runtime.Base.{
  ℕ, zero, suc, Bool, true, false, not, List, [], ◌∷◌, ◌++◌, Option, none, some, leb, if◌then◌else◌,
  length, retain, drop_last, map,
}
use nyarix_runtime.Base.Maps.{Map, lookup, insert, contains_key, keys}
use nyarix_runtime.Graph.Cycle.{cycle_from}

-- What the dependency graph reads of a manifest: the package's name, and the names it depends on.
pub record PackageManifest : Type 0 where
  pub name : ℕ
  pub dependencies : List ℕ

pub record DependencyGraph : Type 0 where
  pub edges : Map (List ℕ)

pub data Mark : Type 0 where
  unvisited in_progress done : Mark

abbrev insert_all : List PackageManifest → Map (List ℕ) → Map (List ℕ)
insert_all [] edges = edges
insert_all (m ∷ ms) edges = insert_all ms (insert m.name m.dependencies edges)

-- Collected into a map: of two manifests with the same name the later one stays.
unfoldable pub build : List PackageManifest → DependencyGraph
build manifests = record { edges = insert_all manifests [] }

abbrev pub dependencies : Map (List ℕ) → ℕ → List ℕ
dependencies edges name = elim (lookup name edges) [ none ↦ [] | some deps ↦ deps ]

-- The pairs before they are sorted.
abbrev missing_of : Map (List ℕ) → Map (List ℕ) → List (ℕ × ℕ)
missing_of edges [] = []
missing_of edges ((name, deps) ∷ rest) =
    map (λ dep. (name, dep)) (retain (λ dep. not (contains_key dep edges)) deps)
    ++ missing_of edges rest

unfoldable pub missing_dependencies : DependencyGraph → List (ℕ × ℕ)
missing_dependencies g = missing_of g.edges g.edges

abbrev pub insert_sorted : ℕ → List ℕ → List ℕ
insert_sorted n [] = n ∷ []
insert_sorted n (x ∷ xs) = if leb n x then n ∷ x ∷ xs else x ∷ insert_sorted n xs

-- `sort_unstable`.
abbrev pub sort : List ℕ → List ℕ
sort [] = []
sort (x ∷ xs) = insert_sorted x (sort xs)

-- A name without an entry counts as unvisited.
abbrev pub mark_of : Map Mark → ℕ → Mark
mark_of marks name = elim (lookup name marks) [ none ↦ unvisited | some m ↦ m ]

-- The marks, the path and the order that a call leaves, or the cycle that it reports.
pub data Visit : Type 0 where
  cyclic : List ℕ → Visit
  visited : Map Mark → List ℕ → List ℕ → Visit
  out_of_fuel : Visit

-- A loop of calls of `visit`, given as `call`, up to the first that reports a cycle.
unfoldable pub visit_all :
    (ℕ → Map Mark → List ℕ → List ℕ → Visit) → List ℕ → Map Mark → List ℕ → List ℕ → Visit
visit_all call [] marks path order = visited marks path order
visit_all call (name ∷ names) marks path order = elim (call name marks path order) [
  | cyclic c ↦ cyclic c
  | visited marks' path' order' ↦ visit_all call names marks' path' order'
  | out_of_fuel ↦ out_of_fuel
]

-- The dependencies that have a package, sorted: those that the loop in `visit` follows.
abbrev pub followed : Map (List ℕ) → ℕ → List ℕ
followed edges name = retain (λ dep. contains_key dep edges) (sort (dependencies edges name))

-- What follows the loop in `visit`.
abbrev pub finish : ℕ → Visit → Visit
finish name (cyclic c) = cyclic c
finish name (visited marks path order) =
    visited (insert name done marks) (drop_last path) (order ++ name ∷ [])
finish name out_of_fuel = out_of_fuel

-- The recursion is at most one call deeper than there are packages, which bounds the fuel.
unfoldable pub visit : Map (List ℕ) → ℕ → ℕ → Map Mark → List ℕ → List ℕ → Visit
unfolding visit_all
visit edges zero name marks path order = out_of_fuel
visit edges (suc fuel) name marks path order = elim (mark_of marks name) [
  | done ↦ visited marks path order
  | in_progress ↦ cyclic (cycle_from path name)
  | unvisited ↦ finish name (
      visit_all (visit edges fuel) (followed edges name) (insert name in_progress marks)
        (path ++ name ∷ []) order)
]

abbrev pub unvisited_all : List ℕ → Map Mark
unvisited_all [] = []
unvisited_all (name ∷ names) = (name, unvisited) ∷ unvisited_all names

unfoldable pub load_order : DependencyGraph → Visit
unfolding visit
load_order g =
    visit_all (visit g.edges (suc (length g.edges))) (sort (keys g.edges))
      (unvisited_all (keys g.edges)) [] []
