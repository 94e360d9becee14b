-- ===== src/Runtime/Builder.antt =====
-- crates/nyarix-runtime/src/graph_builder.rs. A name is a number. Each name of the stack comes with the
-- fresh identifier that its node gets.
pub mod Adding
pub mod Chain
pub mod Shape
use nyarix_runtime.Base.{ℕ, List, [], ◌∷◌, Option, none, some, Result, ok, err}
use nyarix_runtime.Errors.{GraphError}
use nyarix_runtime.Packet.{Packet}
use nyarix_runtime.Graph.Channel.{Mpsc}
use nyarix_runtime.Graph.Edge.{Edge, sequential, new_closed}
use nyarix_runtime.Graph.Node.{Modules, default_queue_capacity}
use nyarix_runtime.Graph.Node
use nyarix_runtime.Graph.Flow.{FlowGraph, add_node, connect_all, mark_entry_point, mark_exit_point}
use nyarix_runtime.Graph.Flow
use nyarix_runtime.Graph.Validate.{validate}

pub data BuildError : Type 0 where
  unknown_module : ℕ → BuildError
  graph_error : GraphError → BuildError

-- What `build_from_profile` returns, or fuel that ran out in `validate`.
pub data Built (M C : Type 0) : Type 0 where
  built : FlowGraph M C → Built M C
  failed : BuildError → Built M C
  out_of_fuel : Built M C

abbrev pub last_of : ℕ → List ℕ → ℕ
last_of id [] = id
last_of id (next ∷ ids) = last_of next ids

module _ {M C : Type 0} where
  -- The first node is the entry point, and the last is the exit point.
  abbrev pub mark_ends : FlowGraph M C → List ℕ → FlowGraph M C
  mark_ends g [] = g
  mark_ends g (id ∷ ids) = mark_exit_point (mark_entry_point g id) (last_of id ids)

  -- The answer of `validate` on the graph.
  abbrev pub accept : FlowGraph M C → Option (Result (Unit {0}) GraphError) → Built M C
  accept g none = out_of_fuel
  accept g (some (err e)) = failed (graph_error e)
  accept g (some (ok u)) = built g

module _ {M C : Type 0} (ops : Modules M) (ch : Mpsc C Packet) (resolve : ℕ → Option M) where
  -- The loop over the stack.
  unfoldable pub add_nodes : FlowGraph M C → List (ℕ × ℕ) → Result (FlowGraph M C) BuildError
  add_nodes g [] = ok g
  add_nodes g ((name, id) ∷ rest) = elim (resolve name) [
    | none ↦ err (unknown_module name)
    | some m ↦ add_nodes (add_node g (Node.new ops ch id m default_queue_capacity)) rest
  ]

  -- An edge from each node to the next, its receiver dropped.
  abbrev pub chain : ℕ → List ℕ → List (Edge C)
  chain id [] = []
  chain id (next ∷ ids) =
      new_closed ch id next sequential none default_queue_capacity ∷ chain next ids

  abbrev pub chain_of : List ℕ → List (Edge C)
  chain_of [] = []
  chain_of (id ∷ ids) = chain id ids

  abbrev pub identifiers : List (ℕ × ℕ) → List ℕ
  identifiers [] = []
  identifiers ((name, id) ∷ rest) = id ∷ identifiers rest

  -- What follows the two loops.
  abbrev pub complete : List ℕ → FlowGraph M C × Result (Unit {0}) GraphError → Built M C
  complete ids (g, err e) = failed (graph_error e)
  complete ids (g, ok u) = accept (mark_ends g ids) (validate (mark_ends g ids))

  unfoldable pub build_from_profile : List (ℕ × ℕ) → Built M C
  unfolding add_nodes
  build_from_profile stack = elim (add_nodes Flow.new stack) [
    | err e ↦ failed e
    | ok g ↦ complete (identifiers stack) (connect_all g (chain_of (identifiers stack)))
  ]
