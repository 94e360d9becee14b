-- ===== src/Graph/Search.antt =====
-- crates/nyarix-graph/src/graph.rs: `find_path`, the breadth-first search for a path.
pub mod Scanning
pub mod Paths
use nyarix_runtime.Base.{
  ℕ, zero, suc, ◌+◌, Bool, true, false, not, ◌||◌, List, [], ◌∷◌, ◌++◌, Option, none, some, ◌==◌,
  if◌then◌else◌, length, elem,
}
use nyarix_runtime.Base.Maps.{Map, lookup, insert, contains_key}
use nyarix_runtime.Graph.Flow.{FlowGraph, targets}

-- The variables of the loop.
pub record Search : Type 0 where
  pub visited : List ℕ
  pub queue : List ℕ
  pub predecessor : Map ℕ

pub data Scan : Type 0 where
  found : Map ℕ → Scan
  more : Search → Scan

-- `visited.insert(next)`, and what follows when `next` was new.
abbrev pub visit : Search → ℕ → ℕ → Search
visit s current next = record {
  visited = next ∷ s.visited;
  queue = s.queue ++ next ∷ [];
  predecessor = insert next current s.predecessor;
}

-- The loop over the neighbors of `current`.
unfoldable pub scan : ℕ → ℕ → List ℕ → Search → Scan
scan to current [] s = more s
scan to current (next ∷ rest) s = elim (elem next s.visited) [
  | true ↦ scan to current rest s
  | false ↦ elim (next == to) [
    | true ↦ found (insert next current s.predecessor)
    | false ↦ scan to current rest (visit s current next)
  ]
]

pub data Outcome : Type 0 where
  reached : Map ℕ → Outcome
  exhausted out_of_fuel : Outcome

-- The `while let` loop with fuel. No more rounds are needed than the graph has nodes.
unfoldable pub search : Map (List ℕ) → ℕ → ℕ → Search → Outcome
unfolding scan
search a to zero s = elim s.queue [ [] ↦ exhausted | _ ↦ out_of_fuel ]
search a to (suc fuel) s = elim s.queue [
  | [] ↦ exhausted
  | current ∷ rest ↦ elim (scan to current (targets a current) (record s { queue = rest })) [
    | found p ↦ reached p
    | more s' ↦ search a to fuel s'
  ]
]

-- The path is built from its end, so the list grows at its head and needs no reversal. `none` is
-- the panic on a missing predecessor, or fuel that ran out.
unfoldable pub reconstruct_path : Map ℕ → ℕ → ℕ → ℕ → List ℕ → Option (List ℕ)
reconstruct_path predecessor from zero current path = none
reconstruct_path predecessor from (suc fuel) current path = elim (current == from) [
  | true ↦ some path
  | false ↦ elim (lookup current predecessor) [
    | none ↦ none
    | some previous ↦ reconstruct_path predecessor from fuel previous (previous ∷ path)
  ]
]

-- What `find_path` returns; `failed` is a panic, or fuel that ran out.
pub data Found : Type 0 where
  path : List ℕ → Found
  no_path failed : Found

abbrev pub start : ℕ → Search
start from = record { visited = from ∷ []; queue = from ∷ []; predecessor = [] }

abbrev pub of_option : Option (List ℕ) → Found
of_option none = failed
of_option (some p) = path p

abbrev pub of_outcome : ℕ → ℕ → Outcome → Found
of_outcome from to (reached p) = of_option (reconstruct_path p from (suc (length p)) to (to ∷ []))
of_outcome from to exhausted = no_path
of_outcome from to out_of_fuel = failed

unfoldable pub find_path : {M C : Type 0} → FlowGraph M C → ℕ → ℕ → Found
unfolding search reconstruct_path
find_path g from to =
    if not (contains_key from g.nodes) || not (contains_key to g.nodes)
    then no_path
    else (if from == to
        then path (from ∷ [])
        else of_outcome from to (search g.adjacency to (length g.nodes) (start from)))
