-- ===== src/Graph/Flow/Preserve.antt =====
-- Every call that changes the topology keeps the adjacency index in step with the edges.
use mathlib.Core.List.{append-nil}
use nyarix_runtime.Base.{
  ℕ, ◌≡◌, refl, subst, Result-cases, ap, ◌∙◌, true, not, ◌&&◌, ◌||◌, List, [], ◌∷◌, ◌++◌, map,
  arith, ok, ◌==◌, retain, remove_first, Bool-cases, inl, inr,
}
use nyarix_runtime.Base.Maps.{
  Map, remove, contains_key, adjust, map_values, lookup-insert, lookup-remove, lookup-map_values,
  lookup-adjust,
}
use nyarix_runtime.Graph.Edge.{Edge}
use nyarix_runtime.Graph.Node.{GraphNode, Modules, NodeType}
use nyarix_runtime.Graph.Node
use nyarix_runtime.Graph.Flow.Sync.{
  InSync, outgoing, Ends-insert, Ends-append, Ends-remove, Ends-remove_first, outgoing-append,
  outgoing-without, outgoing-remove_first, outgoing-remove_from, outgoing-map,
}
use nyarix_runtime.Graph.Flow.{
  FlowGraph, targets, or_default, add_node, connect, mark_by_type, new, connect_all,
}

targets-or_default : (id k : ℕ) (a : Map (List ℕ)) → targets (or_default id a) k ≡ targets a k
targets-or_default id k a = ground (arith, lookup-insert id k [] a)

contains_key-or_default :
    (id k : ℕ) (a : Map (List ℕ))
    → contains_key k (or_default id a) ≡ ((id == k) || contains_key k a)
contains_key-or_default id k a = ground (arith, lookup-insert id k [] a)

module _ {M C : Type 0} where
  pub new-InSync : InSync {M = M} {C = C} new
  unfolding new
  new-InSync = record { keyed = λ k. refl; synced = λ k. refl; closed = tt }

  marked-InSync :
      (g : FlowGraph M C) (id : ℕ) (t : NodeType) → InSync g → InSync (mark_by_type g id t)
  unfolding mark_by_type
  marked-InSync g id Node.source v = record {
    keyed = v.keyed;
    synced = v.synced;
    closed = v.closed;
  }
  marked-InSync g id Node.sink v = record { keyed = v.keyed; synced = v.synced; closed = v.closed }
  marked-InSync g id _ v = v

  pub add_node-InSync : (g : FlowGraph M C) (n : GraphNode M C) → InSync g → InSync (add_node g n)
  unfolding add_node
  add_node-InSync g n v =
      let marked = mark_by_type g n.id n.node_type in
      let m = marked-InSync g n.id n.node_type v in
      record {
        keyed = λ k. ground (
          arith,
          m.keyed k,
          contains_key-or_default n.id k marked.adjacency,
          lookup-insert n.id k n marked.nodes,
        );
        synced = λ k. targets-or_default n.id k marked.adjacency ∙ m.synced k;
        closed = Ends-insert n.id n marked.nodes marked.edges m.closed;
      }

  -- The parts of the graph after a removal.
  pub removed-InSync :
      (g g' : FlowGraph M C) (id : ℕ)
      → InSync g
      → g'.nodes ≡ remove id g.nodes
      → g'.edges ≡ retain (λ e. not (e.from == id) && not (e.to == id)) g.edges
      → g'.adjacency ≡ map_values (λ ts. retain (λ t. not (t == id)) ts) (remove id g.adjacency)
      → InSync g'
  removed-InSync g g' id v en ee ea = record {
    keyed = λ k.
        rw (en, ea)
          (ground (
            arith,
            v.keyed k,
            lookup-map_values k (λ ts. retain (λ t. not (t == id)) ts) (remove id g.adjacency),
            lookup-remove id k g.adjacency,
            lookup-remove id k g.nodes,
          ));
    synced = λ k.
        rw (ee, ea)
          (ground (
            arith,
            v.synced k,
            outgoing-without id k g.edges,
            lookup-map_values k (λ ts. retain (λ t. not (t == id)) ts) (remove id g.adjacency),
            lookup-remove id k g.adjacency,
          ));
    closed = rw (en, ee) (Ends-remove id g.nodes g.edges v.closed);
  }

  pub connected-InSync :
      (g : FlowGraph M C) (e : Edge C)
      → InSync g
      → contains_key e.from g.nodes ≡ true
      → contains_key e.to g.nodes ≡ true
      → InSync (record g {
        adjacency = adjust e.from (λ ts. ts ++ e.to ∷ []) (or_default e.from g.adjacency);
        edges = g.edges ++ e ∷ [];
      })
  connected-InSync g e v a b = record {
    keyed = λ k. ground (
      arith,
      v.keyed k,
      lookup-adjust e.from k (λ ts. ts ++ e.to ∷ []) (or_default e.from g.adjacency),
      contains_key-or_default e.from k g.adjacency,
    );
    synced = λ k. ground (
      arith,
      v.synced k,
      outgoing-append k g.edges (e ∷ []),
      append-nil (outgoing k g.edges),
      lookup-adjust e.from k (λ ts. ts ++ e.to ∷ []) (or_default e.from g.adjacency),
      lookup-insert e.from k [] g.adjacency,
    );
    closed = Ends-append g.nodes g.edges e v.closed a b;
  }

  pub connect-InSync :
      (g g' : FlowGraph M C) (e : Edge C) → connect g e ≡ ok g' → InSync g → InSync g'
  unfolding connect
  connect-InSync g g' e h v = elim (Bool-cases (contains_key e.from g.nodes)) [
    | inr no_from ↦ absurd (ground arith)
    | inl a ↦ elim (Bool-cases (contains_key e.to g.nodes)) [
      | inr no_to ↦ absurd (ground arith)
      | inl b ↦ subst (InSync) (ground arith) (connected-InSync g e v a b)
    ]
  ]

  pub connect_all-InSync :
      (g : FlowGraph M C) (es : List (Edge C)) → InSync g → InSync (connect_all g es).0
  unfolding connect_all
  connect_all-InSync g [] v = v
  connect_all-InSync g (e ∷ es) v = elim (Result-cases (connect g e)) [
    | inl (g', h) ↦ rw (h, connect_all) (connect_all-InSync g' es (connect-InSync g g' e h v))
    | inr (x, h) ↦ rw (h, connect_all) v
  ]

  pub disconnected-InSync :
      (g : FlowGraph M C) (from to : ℕ)
      → InSync g
      → InSync (record g {
        edges = remove_first (λ e. (e.from == from) && (e.to == to)) g.edges;
        adjacency = adjust from (remove_first (λ t. t == to)) g.adjacency;
      })
  disconnected-InSync g from to v = record {
    keyed = λ k.
        ground (arith, v.keyed k, lookup-adjust from k (remove_first (λ t. t == to)) g.adjacency);
    synced = λ k. ground (
      arith,
      v.synced k,
      outgoing-remove_first from to k g.edges,
      lookup-adjust from k (remove_first (λ t. t == to)) g.adjacency,
    );
    closed = Ends-remove_first _ g.nodes g.edges v.closed;
  }

  pub cut-InSync :
      (g : FlowGraph M C) (id : ℕ) (old : Edge C) (rest : List (Edge C))
      → InSync g
      → retain (λ e. e.from == id) g.edges ≡ old ∷ rest
      → InSync (record g {
        edges = remove_first (λ e. e.from == id) g.edges;
        adjacency = adjust id (remove_first (λ t. t == old.to)) g.adjacency;
      })
  cut-InSync g id old rest v h = record {
    keyed = λ k.
        ground (arith, v.keyed k, lookup-adjust id k (remove_first (λ t. t == old.to)) g.adjacency);
    synced = λ k. ground (
      arith,
      v.synced k,
      outgoing-remove_from id k g.edges,
      outgoing-map k g.edges,
      ap (map (λ e. e.to)) h,
      lookup-adjust id k (remove_first (λ t. t == old.to)) g.adjacency,
    );
    closed = Ends-remove_first _ g.nodes g.edges v.closed;
  }
