-- ===== src/Graph/Flow.antt =====
-- crates/nyarix-graph/src/graph.rs: the stored graph and the calls that change its topology.
pub mod Sync
pub mod Preserve
pub mod Changes
use nyarix_runtime.Base.{
  ℕ, zero, suc, ◌+◌, Bool, true, false, not, ◌&&◌, ◌||◌, List, [], ◌∷◌, ◌++◌, map, Option, none,
  some, Result, ok, err, ◌>>=◌, ◌==◌, ltb, if◌then◌else◌, length, retain, find, elem, remove_first,
}
use nyarix_runtime.Base.Maps.{Map, lookup, insert, remove, contains_key, adjust, map_values, keys}
use nyarix_runtime.Errors.{
  ModuleError, GraphError, missing_node, build_failed, ambiguous_insert, ambiguous_reconnect,
}
use nyarix_runtime.Packet.{Packet}
use nyarix_runtime.Graph.Channel.{Mpsc}
use nyarix_runtime.Graph.Edge.{Edge, EdgeType, sequential, new_closed}
use nyarix_runtime.Graph.Node.{GraphNode, Modules, NodeType, migrate, default_queue_capacity}
use nyarix_runtime.Graph.Node

pub record FlowGraph (M C : Type 0) : Type 0 where
  pub nodes : Map (GraphNode M C)
  pub edges : List (Edge C)
  pub adjacency : Map (List ℕ)
  pub entry_points : List ℕ
  pub exit_points : List ℕ
  pub allowed_feedback_edges : List (ℕ × ℕ)

-- A push that leaves an identifier in once.
abbrev pub push_new : ℕ → List ℕ → List ℕ
push_new id ids = if elem id ids then ids else ids ++ id ∷ []

-- `self.adjacency.get(&id)`, an absent entry as the empty list.
abbrev pub targets : Map (List ℕ) → ℕ → List ℕ
targets a id = elim (lookup id a) [ none ↦ [] | some ts ↦ ts ]

-- `self.adjacency.entry(id).or_default()`.
abbrev pub or_default : ℕ → Map (List ℕ) → Map (List ℕ)
or_default id a = if contains_key id a then a else insert id [] a

module _ {M C : Type 0} where
  unfoldable pub new : FlowGraph M C
  new = record {
    nodes = [];
    edges = [];
    adjacency = [];
    entry_points = [];
    exit_points = [];
    allowed_feedback_edges = [];
  }

  unfoldable pub mark_entry_point : FlowGraph M C → ℕ → FlowGraph M C
  mark_entry_point g id = record g { entry_points = push_new id g.entry_points }

  unfoldable pub mark_exit_point : FlowGraph M C → ℕ → FlowGraph M C
  mark_exit_point g id = record g { exit_points = push_new id g.exit_points }

  mark_by_type : FlowGraph M C → ℕ → NodeType → FlowGraph M C
  unfolding mark_entry_point mark_exit_point
  mark_by_type g id Node.source = mark_entry_point g id
  mark_by_type g id Node.sink = mark_exit_point g id
  mark_by_type g id _ = g

  unfoldable pub add_node : FlowGraph M C → GraphNode M C → FlowGraph M C
  unfolding mark_by_type
  add_node g node =
      let marked = mark_by_type g node.id node.node_type in
      record marked {
        nodes = insert node.id node marked.nodes;
        adjacency = or_default node.id marked.adjacency;
      }

  -- The node that was removed, and the graph without it and every edge that touched it.
  unfoldable pub remove_node : FlowGraph M C → ℕ → Option (GraphNode M C × FlowGraph M C)
  remove_node g id = elim (lookup id g.nodes) [
    | none ↦ none
    | some removed ↦ some (
      removed,
      record g {
        nodes = remove id g.nodes;
        edges = retain (λ e. not (e.from == id) && not (e.to == id)) g.edges;
        adjacency = map_values (λ ts. retain (λ t. not (t == id)) ts) (remove id g.adjacency);
        entry_points = retain (λ n. not (n == id)) g.entry_points;
        exit_points = retain (λ n. not (n == id)) g.exit_points;
      },
    )
  ]

  unfoldable pub connect : FlowGraph M C → Edge C → Result (FlowGraph M C) GraphError
  connect g e =
      if not (contains_key e.from g.nodes)
      then err (missing_node e.from)
      else (if not (contains_key e.to g.nodes)
          then err (missing_node e.to)
          else ok (record g {
            adjacency = adjust e.from (λ ts. ts ++ e.to ∷ []) (or_default e.from g.adjacency);
            edges = g.edges ++ e ∷ [];
          }))

  unfoldable pub disconnect : FlowGraph M C → ℕ → ℕ → Option (Edge C × FlowGraph M C)
  disconnect g from to = elim (find (λ e. (e.from == from) && (e.to == to)) g.edges) [
    | none ↦ none
    | some e ↦ some (
      e,
      record g {
        edges = remove_first (λ e. (e.from == from) && (e.to == to)) g.edges;
        adjacency = adjust from (remove_first (λ t. t == to)) g.adjacency;
      },
    )
  ]

  abbrev pub edges_from : FlowGraph M C → ℕ → List (Edge C)
  edges_from g id = retain (λ e. e.from == id) g.edges

  unfoldable pub allow_feedback_edge : FlowGraph M C → ℕ → ℕ → FlowGraph M C
  allow_feedback_edge g from to = record g {
    allowed_feedback_edges = (from, to) ∷ g.allowed_feedback_edges;
  }

  -- Calls of `connect` one after the other, up to the first that fails: the graph after them.
  unfoldable pub connect_all :
      FlowGraph M C → List (Edge C) → FlowGraph M C × Result (Unit {0}) GraphError
  unfolding connect
  connect_all g [] = (g, ok tt)
  connect_all g (e ∷ es) = elim (connect g e) [ ok g' ↦ connect_all g' es | err x ↦ (g, err x) ]

-- The edge of a splice, with its receiver dropped.
abbrev pub plain_edge : {C : Type 0} → Mpsc C Packet → ℕ → ℕ → ℕ → Edge C
plain_edge ch from to capacity = new_closed ch from to sequential none capacity

module _ {C : Type 0} (ch : Mpsc C Packet) where
  -- The new edges from each predecessor to each successor, in the order of the two loops.
  bridges_to : ℕ → List ℕ → ℕ → List (Edge C)
  bridges_to pred [] capacity = []
  bridges_to pred (succ ∷ succs) capacity =
      plain_edge ch pred succ capacity ∷ bridges_to pred succs capacity

  unfoldable pub bridges : List ℕ → List ℕ → ℕ → List (Edge C)
  unfolding bridges_to
  bridges [] succs capacity = []
  bridges (pred ∷ preds) succs capacity =
      bridges_to pred succs capacity ++ bridges preds succs capacity

module _ {M C : Type 0} where
  finish :
      GraphNode M C
      → FlowGraph M C × Result (Unit {0}) GraphError
      → FlowGraph M C × Result (GraphNode M C) GraphError
  finish removed (g, ok u) = (g, ok removed)
  finish removed (g, err e) = (g, err e)

module _ {M C : Type 0} (ch : Mpsc C Packet) where
  -- `insert_after` once the number of outgoing edges is known to be at most one.
  splice :
      FlowGraph M C
      → ℕ
      → GraphNode M C
      → List (Edge C)
      → FlowGraph M C × Result (Unit {0}) GraphError
  unfolding add_node connect_all new_closed
  splice g after_id node [] =
      connect_all (add_node g node) (plain_edge ch after_id node.id node.queue_capacity ∷ [])
  splice g after_id node (old ∷ _) =
      let added = add_node g node in
      let cut = record added {
        edges = remove_first (λ e. e.from == after_id) added.edges;
        adjacency = adjust after_id (remove_first (λ t. t == old.to)) added.adjacency;
      } in
      connect_all cut (
        new_closed ch after_id node.id old.edge_type old.condition node.queue_capacity
        ∷ plain_edge ch node.id old.to node.queue_capacity
        ∷ [])

  -- The graph after the call, also where it fails.
  unfoldable pub insert_after :
      FlowGraph M C → ℕ → GraphNode M C → FlowGraph M C × Result (Unit {0}) GraphError
  unfolding splice
  insert_after g after_id node =
      if not (contains_key after_id g.nodes)
      then (g, err (missing_node after_id))
      else (let outgoing = edges_from g after_id in
          if ltb 1 (length outgoing)
          then (g, err (build_failed (ambiguous_insert after_id (length outgoing))))
          else splice g after_id node outgoing)

  unfoldable pub remove_and_reconnect :
      FlowGraph M C → ℕ → FlowGraph M C × Result (GraphNode M C) GraphError
  unfolding remove_node bridges connect_all finish
  remove_and_reconnect g id =
      let preds = map (λ e. e.from) (retain (λ e. e.to == id) g.edges) in
      let succs = map (λ e. e.to) (retain (λ e. e.from == id) g.edges) in
      elim (remove_node g id) [
        | none ↦ (g, err (missing_node id))
        | some (removed, g') ↦
            if ltb 1 (length preds) && ltb 1 (length succs)
            then (g, err (build_failed (ambiguous_reconnect id (length preds) (length succs))))
            else finish removed (connect_all g' (bridges ch preds succs removed.queue_capacity))
      ]

-- `SwapOutcome`.
pub record SwapOutcome (M C : Type 0) : Type 0 where
  pub replaced : GraphNode M C
  pub migrate_result : Result (Unit {0}) ModuleError

module _ {M C : Type 0} (ops : Modules M) (ch : Mpsc C Packet) where
  unfoldable pub swap_node :
      FlowGraph M C → ℕ → M → FlowGraph M C × Result (SwapOutcome M C) GraphError
  unfolding migrate Node.new
  swap_node g id new_module = elim (lookup id g.nodes) [
    | none ↦ (g, err (missing_node id))
    | some old ↦
        let (migrated, result) = migrate ops old in
        (
          record g { nodes = insert id (Node.new ops ch id new_module old.queue_capacity) g.nodes },
          ok (record { replaced = migrated; migrate_result = result }),
        )
  ]
