-- ===== src/Graph/Cycle.antt =====
-- crates/nyarix-graph/src/graph.rs: `detect_cycle`, a depth-first search that skips feedback edges.
pub mod Marks
pub mod Walking
pub mod Detection
use nyarix_runtime.Base.{
  ℕ, zero, suc, ◌+◌, Bool, true, false, ◌&&◌, List, [], ◌∷◌, ◌++◌, Option, none, some, ◌==◌,
  if◌then◌else◌, length, any, position, drop, drop_last,
}
use nyarix_runtime.Base.Maps.{Map, lookup, insert, contains_key, keys}
use nyarix_runtime.Graph.Flow.{FlowGraph, targets}

pub data DfsMark : Type 0 where
  visiting visited : DfsMark

-- How a call of the search ends: with a cycle, or with the marks and the stack after it.
pub data Dfs : Type 0 where
  cycle : List ℕ → Dfs
  clean : Map DfsMark → List ℕ → Dfs
  out_of_fuel : Dfs

-- `allowed_feedback_edges.contains(&(from, to))`.
abbrev pub is_feedback : List (ℕ × ℕ) → ℕ → ℕ → Bool
is_feedback allowed from to = any (λ e. (e.0 == from) && (e.1 == to)) allowed

-- `unwrap_or(0)`.
abbrev pub or_zero : Option ℕ → ℕ
or_zero none = 0
or_zero (some i) = i

-- The stack is a vector: its last element is its top.
abbrev pub cycle_from : List ℕ → ℕ → List ℕ
cycle_from stack next = drop (or_zero (position (λ n. n == next) stack)) stack ++ next ∷ []

-- The loop over the neighbors of `node`; `visit` is the recursive call.
unfoldable pub visit_neighbors :
    (ℕ → Map DfsMark → List ℕ → Dfs) → List (ℕ × ℕ) → ℕ → List ℕ → Map DfsMark → List ℕ → Dfs
visit_neighbors visit allowed node [] marks stack = clean marks stack
visit_neighbors visit allowed node (next ∷ rest) marks stack =
    elim (is_feedback allowed node next) [
      | true ↦ visit_neighbors visit allowed node rest marks stack
      | false ↦ elim (lookup next marks) [
        | some visiting ↦ cycle (cycle_from stack next)
        | some visited ↦ visit_neighbors visit allowed node rest marks stack
        | none ↦ elim (visit next marks stack) [
          | cycle c ↦ cycle c
          | clean marks' stack' ↦ visit_neighbors visit allowed node rest marks' stack'
          | out_of_fuel ↦ out_of_fuel
        ]
      ]
    ]

-- `stack.pop(); marks.insert(node, Visited)` after a loop that found nothing.
abbrev pub leave : ℕ → Dfs → Dfs
leave node (cycle c) = cycle c
leave node (clean marks stack) = clean (insert node visited marks) (drop_last stack)
leave node out_of_fuel = out_of_fuel

-- The recursion is no deeper than the graph has nodes, which is the fuel that it is given.
unfoldable pub dfs_detect_cycle : Map (List ℕ) → List (ℕ × ℕ) → ℕ → ℕ → Map DfsMark → List ℕ → Dfs
unfolding visit_neighbors
dfs_detect_cycle adjacency allowed zero node marks stack = out_of_fuel
dfs_detect_cycle adjacency allowed (suc fuel) node marks stack = leave node (
    visit_neighbors (dfs_detect_cycle adjacency allowed fuel) allowed node (targets adjacency node)
      (insert node visiting marks) (stack ++ node ∷ []))

-- The loop over the nodes of the graph, in whatever order they are iterated.
unfoldable pub search_from : (ℕ → Map DfsMark → List ℕ → Dfs) → List ℕ → Map DfsMark → List ℕ → Dfs
search_from visit [] marks stack = clean marks stack
search_from visit (start ∷ starts) marks stack = elim (contains_key start marks) [
  | true ↦ search_from visit starts marks stack
  | false ↦ elim (visit start marks stack) [
    | cycle c ↦ cycle c
    | clean marks' stack' ↦ search_from visit starts marks' stack'
    | out_of_fuel ↦ out_of_fuel
  ]
]

-- `cycle c` is `Some(c)`, and `clean` is `None`.
unfoldable pub detect_cycle : {M C : Type 0} → FlowGraph M C → Dfs
unfolding dfs_detect_cycle search_from
detect_cycle g =
    search_from (dfs_detect_cycle g.adjacency g.allowed_feedback_edges (length g.nodes))
      (keys g.nodes) [] []
