-- ===== src/Runtime/Lifecycle.antt =====
-- crates/nyarix-runtime/src/execution_loop.rs: the start and the end of all nodes of a graph. The lock
-- on the graph makes each of the two one step.
pub mod AllNodes
pub mod Ending
use nyarix_runtime.Base.{ℕ, List, [], ◌∷◌, Option, none, some, Result, ok, err}
use nyarix_runtime.Base.Maps.{Map, lookup, insert, keys}
use nyarix_runtime.Errors.{ModuleError}
use nyarix_runtime.Packet.{Packet}
use nyarix_runtime.Graph.Channel.{Mpsc}
use nyarix_runtime.Graph.Queue.{drain}
use nyarix_runtime.Graph.Node.{GraphNode, Modules, initialize, shutdown}
use nyarix_runtime.Graph.Flow.{FlowGraph}

-- `first_error`, after a further result.
abbrev pub first_of : Option ModuleError → Result (Unit {0}) ModuleError → Option ModuleError
first_of (some e) r = some e
first_of none (ok u) = none
first_of none (err e) = some e

-- `first_error.map_or(Ok(()), Err)`.
abbrev pub of_first : Option ModuleError → Result (Unit {0}) ModuleError
of_first none = ok tt
of_first (some e) = err e

module _ {M C : Type 0} (ops : Modules M) where
  -- The loop over the nodes, up to the first that fails.
  unfoldable pub initialize_each :
      List ℕ → Map (GraphNode M C) → Map (GraphNode M C) × Result (Unit {0}) ModuleError
  unfolding initialize
  initialize_each [] nodes = (nodes, ok tt)
  initialize_each (id ∷ ids) nodes = elim (lookup id nodes) [
    | none ↦ initialize_each ids nodes
    | some node ↦
        let (node', answer) = initialize ops node in
        elim answer [
          | ok u ↦ initialize_each ids (insert id node' nodes)
          | err e ↦ (insert id node' nodes, err e)
        ]
  ]

  unfoldable pub initialize_all_nodes :
      FlowGraph M C → FlowGraph M C × Result (Unit {0}) ModuleError
  unfolding initialize_each
  initialize_all_nodes g =
      let (nodes, answer) = initialize_each (keys g.nodes) g.nodes in
      (record g { nodes = nodes }, answer)

module _ {M C : Type 0} (ops : Modules M) (ch : Mpsc C Packet) where
  -- The node after its queue was drained, and what its shutdown answers.
  unfoldable pub drain_and_shutdown : GraphNode M C → GraphNode M C × Result (Unit {0}) ModuleError
  unfolding drain shutdown
  drain_and_shutdown node = shutdown ops (record node { queue = (drain ch node.queue).1 })

  unfoldable pub shutdown_each :
      List ℕ → Map (GraphNode M C) → Option ModuleError → Map (GraphNode M C) × Option ModuleError
  unfolding drain_and_shutdown
  shutdown_each [] nodes first = (nodes, first)
  shutdown_each (id ∷ ids) nodes first = elim (lookup id nodes) [
    | none ↦ shutdown_each ids nodes first
    | some node ↦
        let (node', answer) = drain_and_shutdown node in
        shutdown_each ids (insert id node' nodes) (first_of first answer)
  ]

  unfoldable pub shutdown_all_nodes : FlowGraph M C → FlowGraph M C × Result (Unit {0}) ModuleError
  unfolding shutdown_each
  shutdown_all_nodes g =
      let (nodes, first) = shutdown_each (keys g.nodes) g.nodes none in
      (record g { nodes = nodes }, of_first first)
