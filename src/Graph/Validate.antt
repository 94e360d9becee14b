-- ===== src/Graph/Validate.antt =====
-- crates/nyarix-graph/src/graph.rs: `validate`.
pub mod Report
use nyarix_runtime.Base.{
  ℕ, suc, Bool, true, false, not, ◌&&◌, ◌||◌, List, [], ◌∷◌, Option, none, some, Result, ok, err,
  ◌==◌, if◌then◌else◌, any, find, elem,
}
use nyarix_runtime.Base.Maps.{keys}
use nyarix_runtime.Errors.{GraphError, build_failed, unreachable_exit, orphaned}
use nyarix_runtime.Errors
use nyarix_runtime.Graph.Edge.{Edge}
use nyarix_runtime.Graph.Flow.{FlowGraph, targets}
use nyarix_runtime.Graph.Search.{Found, path, no_path, failed, find_path}
use nyarix_runtime.Graph.Cycle.{Dfs, cycle, clean, out_of_fuel, detect_cycle}

-- `is_some()` on what `find_path` returns; a panic counts as no path.
abbrev pub is_path : Found → Bool
is_path (path p) = true
is_path no_path = false
is_path failed = false

-- `!out.is_empty()`.
abbrev pub is_nonempty : List ℕ → Bool
is_nonempty [] = false
is_nonempty (t ∷ ts) = true

module _ {M C : Type 0} (g : FlowGraph M C) where
  abbrev pub reaches_an_exit : ℕ → Bool
  reaches_an_exit entry = any (λ exit. is_path (find_path g entry exit)) g.exit_points

  abbrev pub is_orphan : ℕ → Bool
  is_orphan id =
      if elem id g.entry_points || elem id g.exit_points
      then false
      else not (any (λ e. e.to == id) g.edges) && not (is_nonempty (targets g.adjacency id))

  -- The loop over the nodes, in whatever order they are iterated.
  unfoldable pub check_orphans : Result (Unit {0}) GraphError
  check_orphans = elim (find is_orphan (keys g.nodes)) [
    | none ↦ ok tt
    | some id ↦ err (build_failed (orphaned id))
  ]

  unfoldable pub check_entries : Result (Unit {0}) GraphError
  unfolding check_orphans
  check_entries = elim (find (λ entry. not (reaches_an_exit entry)) g.entry_points) [
    | none ↦ check_orphans
    | some entry ↦ err (build_failed (unreachable_exit entry))
  ]

  -- `none` is a search that ran out of fuel. The error keeps the cycle itself, not its description.
  unfoldable pub validate : Option (Result (Unit {0}) GraphError)
  unfolding check_entries
  validate = elim (detect_cycle g) [
    | cycle c ↦ some (err (Errors.cycle c))
    | clean marks stack ↦ some check_entries
    | out_of_fuel ↦ none
  ]
