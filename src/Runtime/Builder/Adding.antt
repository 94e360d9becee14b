-- ===== src/Runtime/Builder/Adding.antt =====
-- The loop over the stack: the nodes that it adds, and the ends that their modules mark.
use nyarix_runtime.Base.{
  ℕ, ◌≡◌, refl, ◌∙◌, inl, inr, Bool, true, false, ◌&&◌, ◌||◌, ◌==◌, ==_iff, List, [], ◌∷◌, Option,
  none, some, ok, arith, if◌then◌else◌, elem, elem-append, any, is_some, Bool-cases, Option-cases,
}
use nyarix_runtime.Base.Maps.{lookup, contains_key, lookup-insert}
use nyarix_runtime.Packet.{Packet}
use nyarix_runtime.Graph.Channel.{Mpsc}
use nyarix_runtime.Graph.Node.{GraphNode, Modules, NodeType, source, sink, default_queue_capacity}
use nyarix_runtime.Graph.Node
use nyarix_runtime.Graph.Flow.{FlowGraph, add_node, push_new, mark_entry_point, mark_exit_point}
use nyarix_runtime.Runtime.Builder.{add_nodes, identifiers}

abbrev pub is_source : NodeType → Bool
is_source source = true
is_source _ = false

abbrev pub is_sink : NodeType → Bool
is_sink sink = true
is_sink _ = false

pub elem-push_new : (k id : ℕ) (xs : List ℕ) → elem k (push_new id xs) ≡ (elem k xs || (id == k))
elem-push_new k id xs = elim (Bool-cases (elem id xs)) [
  | inl e ↦ ground (arith, e, ==_iff id k)
  | inr e ↦ rw e (elem-append k xs (id ∷ []) ∙ ground arith)
]

module _ {M C : Type 0} (ops : Modules M) (ch : Mpsc C Packet) (resolve : ℕ → Option M) where
  -- The node that the stack gives to an identifier.
  abbrev pub newest : List (ℕ × ℕ) → ℕ → Option (GraphNode M C)
  newest [] k = none
  newest ((name, id) ∷ rest) k = elim (newest rest k) [
    | some n ↦ some n
    | none ↦
        if id == k
        then elim (resolve name) [
          | none ↦ none
          | some m ↦ some (Node.new ops ch id m default_queue_capacity)
        ]
        else none
  ]

  -- The identifier is that of a module of the kind.
  abbrev pub typed : (NodeType → Bool) → List (ℕ × ℕ) → ℕ → Bool
  typed p [] k = false
  typed p ((name, id) ∷ rest) k =
      ((id == k) && elim (resolve name) [ none ↦ false | some m ↦ p (ops.node_type m) ])
      || typed p rest k

  record Grown (g g' : FlowGraph M C) (n : GraphNode M C) (t : NodeType) : Type 0 where
    nodes : (k : ℕ) → lookup k g'.nodes ≡ (if n.id == k then some n else lookup k g.nodes)
    edges : g'.edges ≡ g.edges
    entries :
        (k : ℕ) → elem k g'.entry_points ≡ (elem k g.entry_points || (is_source t && (n.id == k)))
    exits : (k : ℕ) → elem k g'.exit_points ≡ (elem k g.exit_points || (is_sink t && (n.id == k)))

  add_node-Grown :
      (t : NodeType) (g : FlowGraph M C) (n : GraphNode M C)
      → n.node_type ≡ t
      → Grown g (add_node g n) n t
  unfolding add_node mark_entry_point mark_exit_point
  add_node-Grown source g n e = rw e (record {
    nodes = λ k. lookup-insert n.id k _ g.nodes;
    edges = refl;
    entries = λ k. elem-push_new k n.id g.entry_points;
    exits = λ k. ground arith;
  })
  add_node-Grown sink g n e = rw e (record {
    nodes = λ k. lookup-insert n.id k _ g.nodes;
    edges = refl;
    entries = λ k. ground arith;
    exits = λ k. elem-push_new k n.id g.exit_points;
  })
  add_node-Grown _ g n e = rw e (record {
    nodes = λ k. lookup-insert n.id k _ g.nodes;
    edges = refl;
    entries = λ k. ground arith;
    exits = λ k. ground arith;
  })

  pub record Added (g g' : FlowGraph M C) (stack : List (ℕ × ℕ)) : Type 0 where
    pub nodes :
        (k : ℕ)
        → lookup k g'.nodes ≡ elim (newest stack k) [ some n ↦ some n | none ↦ lookup k g.nodes ]
    pub edges : g'.edges ≡ g.edges
    pub entries :
        (k : ℕ) → elem k g'.entry_points ≡ (elem k g.entry_points || typed is_source stack k)
    pub exits : (k : ℕ) → elem k g'.exit_points ≡ (elem k g.exit_points || typed is_sink stack k)
    pub known :
        (k : ℕ) → elem k (identifiers ops ch resolve stack) ≡ true → contains_key k g'.nodes ≡ true
    pub served : (name : ℕ) → any (λ e. e.0 == name) stack ≡ true → is_some (resolve name) ≡ true

  pub add_nodes-Added :
      (stack : List (ℕ × ℕ)) (g g' : FlowGraph M C)
      → add_nodes ops ch resolve g stack ≡ ok g'
      → Added g g' stack
  unfolding add_nodes Node.new
  add_nodes-Added [] g g' h =
      let same : g ≡ g' = cc in
      rw (← same) (record {
        nodes = λ k. refl;
        edges = refl;
        entries = λ k. ground arith;
        exits = λ k. ground arith;
        known = λ k there. absurd (cc there);
        served = λ name there. absurd (cc there);
      })
  add_nodes-Added ((name, id) ∷ rest) g g' h = elim (Option-cases (resolve name)) [
    | inl e ↦ absurd (cc (rw (e, add_nodes) at h))
    | inr (m, e) ↦
        let n = Node.new ops ch id m default_queue_capacity in
        let one = add_node-Grown (ops.node_type m) g n refl in
        let more = add_nodes-Added rest (add_node g n) g' (rw (e, add_nodes) at h) in
        record {
          nodes = λ k. elim (Option-cases (newest rest k)) [
            | inr (x, f) ↦ ground (arith, more.nodes k, f)
            | inl f ↦ elim (Bool-cases (id == k)) [
              | inl same ↦ ground (arith, more.nodes k, one.nodes k, f, same, e)
              | inr other ↦ ground (arith, more.nodes k, one.nodes k, f, other)
            ]
          ];
          edges = more.edges ∙ one.edges;
          entries = λ k. ground (arith, more.entries k, one.entries k, e);
          exits = λ k. ground (arith, more.exits k, one.exits k, e);
          known = λ k there. elim (Bool-cases (id == k)) [
            | inr other ↦ more.known k (ground (arith, there, other))
            | inl same ↦ elim (Option-cases (newest rest k)) [
              | inr (x, f) ↦ ground (arith, more.nodes k, f)
              | inl f ↦ ground (arith, more.nodes k, one.nodes k, f, same)
            ]
          ];
          served = λ k there. elim (Bool-cases (name == k)) [
            | inl same ↦ rw (← (==_iff name k).0 same) (rw e refl)
            | inr other ↦ more.served k (ground (arith, there, other))
          ];
        }
  ]
