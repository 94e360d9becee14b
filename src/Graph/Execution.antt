-- ===== src/Graph/Execution.antt =====
-- crates/nyarix-graph/src/execution.rs: `execute_sequential`. The metrics and logs that it records
-- are left out. `now i` is the time of hop `i`.
pub mod Hop
pub mod Walk
pub mod Outcome
pub mod Runnable
pub mod Rounds
use Prim.Native.String.{String}
use nyarix_runtime.Base.{
  ℕ, zero, suc, ◌+◌, Bool, true, false, not, List, [], ◌∷◌, Option, none, some, Result, ok, err,
  ltb, if◌then◌else◌, length, find, elem, min,
}
use nyarix_runtime.Base.Maps.{lookup, insert}
use nyarix_runtime.Errors.{
  ModuleError, quota_exceeded, GraphError, missing_node, build_failed, queue_full,
  no_accepting_edge,
}
use nyarix_runtime.Packet.{Packet, record_hop}
use nyarix_runtime.Packet
use nyarix_runtime.Packet.Metadata.{u64_max}
use nyarix_runtime.Packet.Tags.{Bitflags}
use nyarix_runtime.Graph.Channel.{Mpsc}
use nyarix_runtime.Graph.Queue.{try_send, try_recv_prioritized}
use nyarix_runtime.Graph.Edge.{Edge, accepts}
use nyarix_runtime.Graph.Node.{GraphNode, Modules, process}
use nyarix_runtime.Graph.Flow.{FlowGraph, edges_from}

-- `ExecutionError`.
pub data ExecutionError : Type 0 where
  module_failed : ModuleError → ExecutionError
  graph_failed : GraphError → ExecutionError

-- One node's part of a walk: the node after it, and its answer; or the panic of an `expect`.
pub data Hopped (M C : Type 0) : Type 0 where
  hopped : GraphNode M C → Result (Option Packet) ExecutionError → Hopped M C
  panicked : Hopped M C

-- The whole walk: the graph after it, and its answer.
pub data Ran (M C : Type 0) : Type 0 where
  returned : FlowGraph M C → Result (Option Packet) ExecutionError → Ran M C
  panicked out_of_fuel : Ran M C

-- `?` on a module's answer.
abbrev pub of_outcome : Result (Option Packet) ModuleError → Result (Option Packet) ExecutionError
of_outcome (ok p) = ok p
of_outcome (err e) = err (module_failed e)

module _ {M C : Type 0} (ops : Modules M) where
  unfoldable pub check_payload_limit : GraphNode M C → Packet → Result (Unit {0}) ExecutionError
  unfolding Packet.len
  check_payload_limit node packet = elim (ops.max_payload_bytes node.module_arc) [
    | none ↦ ok tt
    | some limit ↦
        if ltb limit (min (Packet.len packet) u64_max)
        then err (module_failed (quota_exceeded (ops.name node.module_arc) "payload_size"))
        else ok tt
  ]

  unfoldable pub record_and_check_processing_time :
      GraphNode M C → ℕ → Result (Unit {0}) ExecutionError
  record_and_check_processing_time node elapsed = elim (ops.max_processing_time node.module_arc) [
    | none ↦ ok tt
    | some budget ↦
        if ltb budget elapsed
        then err (module_failed (quota_exceeded (ops.name node.module_arc) "processing_time"))
        else ok tt
  ]

  -- The answer of a processed packet, unless it took too long.
  unfoldable pub after_process : ℕ → GraphNode M C × Result (Option Packet) ModuleError → Hopped M C
  unfolding record_and_check_processing_time
  after_process elapsed (node, outcome) = elim (record_and_check_processing_time node elapsed) [
    | err e ↦ hopped node (err e)
    | ok u ↦ hopped node (of_outcome outcome)
  ]

  -- `enqueue_and_dequeue_sync`, and what follows it in the loop.
  unfoldable pub enqueue_and_process :
      Mpsc C Packet → Bitflags → GraphNode M C → Packet → Hopped M C
  unfolding process after_process try_send try_recv_prioritized
  enqueue_and_process ch fl node packet = elim (try_send ch fl node.queue packet) [
    | none ↦ hopped node (err (graph_failed (build_failed (queue_full node.id))))
    | some sent ↦ elim (try_recv_prioritized ch sent) [
      | none ↦ panicked
      | some (queued, left) ↦
          after_process (ops.process_time node.module_arc queued)
            (process ops (record node { queue = left }) queued)
    ]
  ]

  -- What the body of the loop does at the node of `current`.
  unfoldable pub hop : Mpsc C Packet → Bitflags → ℕ → ℕ → GraphNode M C → Packet → Hopped M C
  unfolding check_payload_limit enqueue_and_process record_hop
  hop ch fl now current node packet = elim (check_payload_limit node packet) [
    | err e ↦ hopped node (err e)
    | ok u ↦ enqueue_and_process ch fl node (record_hop now packet current)
  ]

module _ {M C : Type 0} where
  -- `graph.edges_from(current).find(|edge| edge.accepts(&packet))`.
  abbrev pub next_edge : Bitflags → FlowGraph M C → ℕ → Packet → Option (Edge C)
  next_edge fl g current packet = find (λ e. accepts fl e packet) (edges_from g current)

module _ {M C : Type 0} (ops : Modules M) (ch : Mpsc C Packet) (fl : Bitflags) (now : ℕ → ℕ) where
  -- The loop with fuel, from hop `i` on. A walk that ends has the same answer at any fuel that is
  -- enough for it.
  unfoldable pub execute_loop : ℕ → ℕ → FlowGraph M C → ℕ → Packet → Ran M C
  unfolding hop
  execute_loop zero i g current packet = out_of_fuel
  execute_loop (suc fuel) i g current packet = elim (lookup current g.nodes) [
    | none ↦ returned g (err (graph_failed (missing_node current)))
    | some node ↦ elim (hop ops ch fl (now i) current node packet) [
      | panicked ↦ panicked
      | hopped node' answer ↦
          let g' = record g { nodes = insert current node' g.nodes } in
          elim answer [
            | err e ↦ returned g' (err e)
            | ok none ↦ returned g' (ok none)
            | ok (some p) ↦ elim (elem current g.exit_points) [
              | true ↦ returned g' (ok (some p))
              | false ↦ elim (next_edge fl g current p) [
                | none ↦ returned g' (err (graph_failed (build_failed (no_accepting_edge current))))
                | some e ↦ execute_loop fuel (suc i) g' e.to p
              ]
            ]
          ]
    ]
  ]

  -- The walk, followed for one round more than the graph has nodes, and for `extra` rounds after
  -- that: over feedback edges a walk may be of any length, and it may never end.
  unfoldable pub execute_sequential : ℕ → FlowGraph M C → ℕ → Packet → Ran M C
  unfolding execute_loop
  execute_sequential extra g entry packet =
      if not (elem entry g.entry_points)
      then returned g (err (graph_failed (missing_node entry)))
      else execute_loop (suc (length g.nodes + extra)) 0 g entry packet
