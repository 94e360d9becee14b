-- ===== src/Graph/Execution/Runnable.antt =====
-- The graphs through which the walk of every packet ends, one packet after the other.
use nyarix_runtime.Base.{ℕ, ◌≡◌, refl, sym, ◌∙◌, List, [], ◌∷◌, Option, none, some, Result, ok, err}
use nyarix_runtime.Base.Maps.{Map, contains_key}
use nyarix_runtime.Errors.{missing_node, build_failed, queue_full, no_accepting_edge}
use nyarix_runtime.Packet.{Packet}
use nyarix_runtime.Packet.Tags.{Bitflags}
use nyarix_runtime.Graph.Channel.{Mpsc}
use nyarix_runtime.Graph.Edge.{Edge}
use nyarix_runtime.Graph.Node.{GraphNode, Modules}
use nyarix_runtime.Graph.Flow.{FlowGraph}
use nyarix_runtime.Graph.Flow.Sync.{InSync, Ends}
use nyarix_runtime.Graph.Validate.Report.{Acyclic}
use nyarix_runtime.Graph.Execution.Walk.{WalkOk, SameShape}
use nyarix_runtime.Graph.Execution.Outcome.{execute_sequential-Acyclic}
use nyarix_runtime.Graph.Execution.{
  ExecutionError, module_failed, graph_failed, Ran, returned, panicked, out_of_fuel,
  execute_sequential,
}

-- What a graph needs for every packet's walk to end, whatever the modules answer.
pub record Runnable {M C : Type 0} (g : FlowGraph M C) : Type 0 where
  pub synced : InSync g
  pub strict : g.allowed_feedback_edges ≡ []
  pub acyclic : Acyclic g

module _ {M C : Type 0} where
  Ends-mono :
      (a b : Map (GraphNode M C)) (es : List (Edge C))
      → ((k : ℕ) → contains_key k b ≡ contains_key k a)
      → Ends a es
      → Ends b es
  Ends-mono a b [] same h = tt
  Ends-mono a b (e ∷ es) same h = (same e.from ∙ h.0, same e.to ∙ h.1, Ends-mono a b es same h.2)

  Runnable-same : (g h : FlowGraph M C) → SameShape g h → Runnable g → Runnable h
  Runnable-same g h same r = record {
    synced = record {
      keyed = λ k. rw same.adjacency (r.synced.keyed k ∙ sym (same.nodes k));
      synced = λ k. rw (same.adjacency, same.edges) (r.synced.synced k);
      closed = rw same.edges (Ends-mono g.nodes h.nodes g.edges same.nodes r.synced.closed);
    };
    strict = same.allowed ∙ r.strict;
    acyclic = rw (same.adjacency, same.allowed) r.acyclic;
  }

  -- What `WalkOk` says of any walk.
  WalkOk-returned :
      (g : FlowGraph M C) (entry : ℕ) (ran : Ran M C)
      → WalkOk g entry ran
      → (g' : FlowGraph M C) × (answer : Result (Option Packet) ExecutionError) × (ran
          ≡ returned g' answer)
        × SameShape g g'
  WalkOk-returned g entry (returned g' (ok (some p))) w = (g', ok (some p), refl, w.0)
  WalkOk-returned g entry (returned g' (ok none)) w = (g', ok none, refl, w)
  WalkOk-returned g entry (returned g' (err (module_failed e))) w =
      (g', err (module_failed e), refl, w)
  WalkOk-returned g entry (returned g' (err (graph_failed (build_failed (queue_full id))))) w =
      (g', err (graph_failed (build_failed (queue_full id))), refl, w)
  WalkOk-returned g entry (returned g' (err (graph_failed (build_failed (no_accepting_edge x)))))
        w =
      (g', err (graph_failed (build_failed (no_accepting_edge x))), refl, w.0)
  WalkOk-returned g entry (returned g' (err (graph_failed (missing_node x)))) w =
      (g', err (graph_failed (missing_node x)), refl, w.0)
  WalkOk-returned g entry (returned g' (err (graph_failed _))) w = absurd w
  WalkOk-returned g entry panicked w = absurd w
  WalkOk-returned g entry out_of_fuel w = absurd w

module _ {M C : Type 0} (ops : Modules M) (ch : Mpsc C Packet) (fl : Bitflags) (now : ℕ → ℕ) where
  -- A runnable graph stays runnable, and the walk through it returns.
  pub execute_sequential-Runnable :
      (extra : ℕ) (g : FlowGraph M C) (entry : ℕ) (p : Packet)
      → Runnable g
      → (g' : FlowGraph M C) × (answer : Result (Option Packet) ExecutionError)
        × (execute_sequential ops ch fl now extra g entry p ≡ returned g' answer)
        × Runnable g'
  execute_sequential-Runnable extra g entry p r =
      let (g', answer, ran, same) =
        WalkOk-returned g entry (execute_sequential ops ch fl now extra g entry p)
          (execute_sequential-Acyclic ops ch fl now extra g entry p r.synced r.strict r.acyclic) in
      (g', answer, ran, Runnable-same g g' same r)
