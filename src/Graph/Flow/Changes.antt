-- ===== src/Graph/Flow/Changes.antt =====
-- Histories of changes to a graph.
use nyarix_runtime.Base.{
  ℕ, ◌≡◌, refl, not, ◌&&◌, List, [], ◌∷◌, Option, none, some, arith, Result, ok, err, ◌==◌, ltb,
  length, find, Option-cases, inl, inr, Result-cases, if_both,
}
use nyarix_runtime.Base.Maps.{lookup, insert, contains_key, lookup-insert}
use nyarix_runtime.Errors.{GraphError}
use nyarix_runtime.Packet.{Packet}
use nyarix_runtime.Graph.Channel.{Mpsc}
use nyarix_runtime.Graph.Edge.{Edge, new_closed}
use nyarix_runtime.Graph.Node.{GraphNode, Modules, NodeType}
use nyarix_runtime.Graph.Node
use nyarix_runtime.Graph.Flow.Sync.{InSync, Ends-insert}
use nyarix_runtime.Graph.Flow.Preserve.{
  new-InSync, add_node-InSync, removed-InSync, connect-InSync, connect_all-InSync,
  disconnected-InSync, cut-InSync,
}
use nyarix_runtime.Graph.Flow.{
  FlowGraph, add_node, remove_node, connect, disconnect, mark_entry_point, mark_exit_point,
  mark_by_type, new, allow_feedback_edge, splice, insert_after, finish, remove_and_reconnect,
  swap_node, plain_edge, edges_from,
}

-- A call that changes a graph.
pub data Change (M C : Type 0) : Type 0 where
  adds : GraphNode M C → Change M C
  removes reconnects marks_entry marks_exit : ℕ → Change M C
  connects : Edge C → Change M C
  disconnects allows_feedback : ℕ → ℕ → Change M C
  inserts : ℕ → GraphNode M C → Change M C
  swaps : ℕ → M → Change M C

module _ {M C : Type 0} where
  abbrev after_option : {R : Type 0} → FlowGraph M C → Option (R × FlowGraph M C) → FlowGraph M C
  after_option g none = g
  after_option g (some (r, g')) = g'

  abbrev after_result : FlowGraph M C → Result (FlowGraph M C) GraphError → FlowGraph M C
  after_result g (ok g') = g'
  after_result g (err e) = g

  edges-mark_by_type :
      (g : FlowGraph M C) (id : ℕ) (t : NodeType) → (mark_by_type g id t).edges ≡ g.edges
  unfolding mark_by_type
  edges-mark_by_type g id Node.source = refl
  edges-mark_by_type g id Node.sink = refl
  edges-mark_by_type g id _ = refl

  edges-add_node : (g : FlowGraph M C) (n : GraphNode M C) → (add_node g n).edges ≡ g.edges
  unfolding add_node
  edges-add_node g n = edges-mark_by_type g n.id n.node_type

  remove_node-InSync :
      (g : FlowGraph M C) (id : ℕ) → InSync g → InSync (after_option g (remove_node g id))
  unfolding remove_node
  remove_node-InSync g id v = elim (Option-cases (lookup id g.nodes)) [
    | inl e ↦ rw (e, remove_node) v
    | inr (n, e) ↦ rw (e, remove_node) (removed-InSync g _ id v refl refl refl)
  ]

  disconnect-InSync :
      (g : FlowGraph M C) (from to : ℕ) → InSync g → InSync (after_option g (disconnect g from to))
  unfolding disconnect
  disconnect-InSync g from to v =
      elim (Option-cases (find (λ e. (e.from == from) && (e.to == to)) g.edges)) [
        | inl e ↦ rw (e, disconnect) v
        | inr (x, e) ↦ rw (e, disconnect) (disconnected-InSync g from to v)
      ]

  after_connect-InSync :
      (g : FlowGraph M C) (e : Edge C) → InSync g → InSync (after_result g (connect g e))
  after_connect-InSync g e v = elim (Result-cases (connect g e)) [
    | inl (g', h) ↦ rw h (connect-InSync g g' e h v)
    | inr (x, h) ↦ rw h v
  ]

module _ {M C : Type 0} (ch : Mpsc C Packet) where
  splice-InSync :
      (g : FlowGraph M C) (id : ℕ) (n : GraphNode M C) (out : List (Edge C))
      → edges_from g id ≡ out
      → InSync g
      → InSync (splice ch g id n out).0
  unfolding splice
  splice-InSync g id n [] e v =
      connect_all-InSync _ (plain_edge ch id n.id n.queue_capacity ∷ []) (add_node-InSync g n v)
  splice-InSync g id n (old ∷ rest) e v =
      connect_all-InSync _
        (new_closed ch id n.id old.edge_type old.condition n.queue_capacity
          ∷ plain_edge ch n.id old.to n.queue_capacity
          ∷ [])
        (cut-InSync (add_node g n) id old rest (add_node-InSync g n v) (rw (edges-add_node g n) e))

  insert_after-InSync :
      (g : FlowGraph M C) (id : ℕ) (n : GraphNode M C)
      → InSync g
      → InSync (insert_after ch g id n).0
  unfolding insert_after
  insert_after-InSync g id n v =
      if_both (λ (r : FlowGraph M C × Result (Unit {0}) GraphError). InSync r.0)
        (not (contains_key id g.nodes)) v
        (if_both (λ (r : FlowGraph M C × Result (Unit {0}) GraphError). InSync r.0)
          (ltb 1 (length (edges_from g id))) v (splice-InSync g id n (edges_from g id) refl v))

  finish-InSync :
      (n : GraphNode M C) (r : FlowGraph M C × Result (Unit {0}) GraphError)
      → InSync r.0
      → InSync (finish n r).0
  unfolding finish
  finish-InSync n (g, ok u) v = v
  finish-InSync n (g, err e) v = v

  remove_and_reconnect-InSync :
      (g : FlowGraph M C) (id : ℕ) → InSync g → InSync (remove_and_reconnect ch g id).0
  unfolding remove_and_reconnect
  remove_and_reconnect-InSync g id v = elim (Option-cases (lookup id g.nodes)) [
    | inl e ↦ rw (e, remove_and_reconnect) v
    | inr (n, e) ↦
        rw (e, remove_and_reconnect)
          (if_both (λ (r : FlowGraph M C × Result (GraphNode M C) GraphError). InSync r.0) _ v
            (finish-InSync n _ (connect_all-InSync _ _ (removed-InSync g _ id v refl refl refl))))
  ]

module _ {M C : Type 0} (ops : Modules M) (ch : Mpsc C Packet) where
  replaced-InSync :
      (g : FlowGraph M C) (id : ℕ) (old n : GraphNode M C)
      → lookup id g.nodes ≡ some old
      → InSync g
      → InSync (record g { nodes = insert id n g.nodes })
  replaced-InSync g id old n e v = record {
    keyed = λ k. ground (arith, v.keyed k, lookup-insert id k n g.nodes);
    synced = v.synced;
    closed = Ends-insert id n g.nodes g.edges v.closed;
  }

  swap_node-InSync :
      (g : FlowGraph M C) (id : ℕ) (m : M) → InSync g → InSync (swap_node ops ch g id m).0
  unfolding swap_node
  swap_node-InSync g id m v = elim (Option-cases (lookup id g.nodes)) [
    | inl e ↦ rw (e, swap_node) v
    | inr (old, e) ↦ rw (e, swap_node) (replaced-InSync g id old _ e v)
  ]

  unfoldable pub step : FlowGraph M C → Change M C → FlowGraph M C
  step g (adds n) = add_node g n
  step g (removes id) = after_option g (remove_node g id)
  step g (reconnects id) = (remove_and_reconnect ch g id).0
  step g (marks_entry id) = mark_entry_point g id
  step g (marks_exit id) = mark_exit_point g id
  step g (connects e) = after_result g (connect g e)
  step g (disconnects from to) = after_option g (disconnect g from to)
  step g (allows_feedback from to) = allow_feedback_edge g from to
  step g (inserts id n) = (insert_after ch g id n).0
  step g (swaps id m) = (swap_node ops ch g id m).0

  step-InSync : (g : FlowGraph M C) (c : Change M C) → InSync g → InSync (step g c)
  unfolding step mark_entry_point mark_exit_point allow_feedback_edge
  step-InSync g (adds n) v = add_node-InSync g n v
  step-InSync g (removes id) v = remove_node-InSync g id v
  step-InSync g (reconnects id) v = remove_and_reconnect-InSync ch g id v
  step-InSync g (marks_entry id) v = record {
    keyed = v.keyed;
    synced = v.synced;
    closed = v.closed;
  }
  step-InSync g (marks_exit id) v = record { keyed = v.keyed; synced = v.synced; closed = v.closed }
  step-InSync g (connects e) v = after_connect-InSync g e v
  step-InSync g (disconnects from to) v = disconnect-InSync g from to v
  step-InSync g (allows_feedback from to) v = record {
    keyed = v.keyed;
    synced = v.synced;
    closed = v.closed;
  }
  step-InSync g (inserts id n) v = insert_after-InSync ch g id n v
  step-InSync g (swaps id m) v = swap_node-InSync g id m v

  unfoldable pub run : FlowGraph M C → List (Change M C) → FlowGraph M C
  run g [] = g
  run g (c ∷ cs) = run (step g c) cs

  run-InSync : (g : FlowGraph M C) (cs : List (Change M C)) → InSync g → InSync (run g cs)
  unfolding run
  run-InSync g [] v = v
  run-InSync g (c ∷ cs) v = run-InSync (step g c) cs (step-InSync g c v)

  -- After any history of changes to a new graph, those that failed half-way included, the adjacency
  -- index has an entry for exactly the nodes of the graph, each entry lists the targets of the edges
  -- out of that node in the order of the edges, and every edge joins two nodes of the graph.
  pub run-new-InSync : (cs : List (Change M C)) → InSync (run new cs)
  run-new-InSync cs = run-InSync new cs new-InSync
