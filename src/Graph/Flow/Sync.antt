-- ===== src/Graph/Flow/Sync.antt =====
-- The invariant of a stored graph: the adjacency index agrees with the list of edges.
use nyarix_runtime.Base.{
  ℕ, ◌≡◌, refl, ◌∙◌, Bool, true, not, ◌&&◌, List, [], ◌∷◌, ◌++◌, map, arith, ◌==◌, ==_iff, elem,
  if◌then◌else◌, retain, remove_first,
}
use nyarix_runtime.Base.Maps.{
  Map, insert, remove, contains_key, keys, elem-keys, lookup-insert, lookup-remove,
}
use nyarix_runtime.Graph.Edge.{Edge}
use nyarix_runtime.Graph.Flow.{FlowGraph, targets}

abbrev pub tail : List ℕ → List ℕ
tail [] = []
tail (t ∷ ts) = ts

module _ {C : Type 0} where
  -- The targets of the edges out of `k`, in the order of the edges.
  abbrev pub outgoing : ℕ → List (Edge C) → List ℕ
  outgoing k [] = []
  outgoing k (e ∷ es) = if e.from == k then e.to ∷ outgoing k es else outgoing k es

  -- Every edge joins two keys of the map.
  abbrev pub Ends {ℓ} : {N : Type ℓ} → Map N → List (Edge C) → Type 0
  Ends nodes [] = Unit {0}
  Ends nodes (e ∷ es) =
      (contains_key e.from nodes ≡ true) × (contains_key e.to nodes ≡ true) × Ends nodes es

  pub outgoing-append :
      (k : ℕ) (es fs : List (Edge C)) → outgoing k (es ++ fs) ≡ outgoing k es ++ outgoing k fs
  outgoing-append k [] fs = refl
  outgoing-append k (e ∷ es) fs = ground (arith, outgoing-append k es fs)

  -- Without the edges that touch `id`.
  pub outgoing-without :
      (id k : ℕ) (es : List (Edge C))
      → outgoing k (retain (λ e. not (e.from == id) && not (e.to == id)) es)
        ≡ (if k == id then [] else retain (λ t. not (t == id)) (outgoing k es))
  outgoing-without id k [] = ground arith
  outgoing-without id k (e ∷ es) = ground (arith, outgoing-without id k es)

  pub outgoing-remove_first :
      (from to k : ℕ) (es : List (Edge C))
      → outgoing k (remove_first (λ e. (e.from == from) && (e.to == to)) es)
        ≡ (if k == from then remove_first (λ t. t == to) (outgoing k es) else outgoing k es)
  outgoing-remove_first from to k [] = ground arith
  outgoing-remove_first from to k (e ∷ es) = ground (arith, outgoing-remove_first from to k es)

  -- `Vec::remove` at the first edge out of `id`.
  pub outgoing-remove_from :
      (id k : ℕ) (es : List (Edge C))
      → outgoing k (remove_first (λ e. e.from == id) es)
        ≡ (if k == id then tail (outgoing k es) else outgoing k es)
  outgoing-remove_from id k [] = ground arith
  outgoing-remove_from id k (e ∷ es) = ground (arith, outgoing-remove_from id k es)

  pub outgoing-map :
      (k : ℕ) (es : List (Edge C)) → outgoing k es ≡ map (λ e. e.to) (retain (λ e. e.from == k) es)
  outgoing-map k [] = refl
  outgoing-map k (e ∷ es) = ground (arith, outgoing-map k es)

module _ {C : Type 0} {N : Type 0} where
  pub Ends-insert :
      (k : ℕ) (n : N) (nodes : Map N) (es : List (Edge C))
      → Ends nodes es
      → Ends (insert k n nodes) es
  Ends-insert k n nodes [] h = tt
  Ends-insert k n nodes (e ∷ es) h = ground (
    arith,
    Ends-insert k n nodes es h.2,
    lookup-insert k e.from n nodes,
    lookup-insert k e.to n nodes,
  )

  pub Ends-append :
      (nodes : Map N) (es : List (Edge C)) (e : Edge C)
      → Ends nodes es
      → contains_key e.from nodes ≡ true
      → contains_key e.to nodes ≡ true
      → Ends nodes (es ++ e ∷ [])
  Ends-append nodes [] e h a b = (a, b, tt)
  Ends-append nodes (x ∷ es) e h a b = (h.0, h.1, Ends-append nodes es e h.2 a b)

  pub Ends-remove :
      (id : ℕ) (nodes : Map N) (es : List (Edge C))
      → Ends nodes es
      → Ends (remove id nodes) (retain (λ e. not (e.from == id) && not (e.to == id)) es)
  Ends-remove id nodes [] h = tt
  Ends-remove id nodes (e ∷ es) h = ground (
    arith,
    Ends-remove id nodes es h.2,
    lookup-remove id e.from nodes,
    lookup-remove id e.to nodes,
  )

  pub Ends-remove_first :
      (p : Edge C → Bool) (nodes : Map N) (es : List (Edge C))
      → Ends nodes es
      → Ends nodes (remove_first p es)
  Ends-remove_first p nodes [] h = tt
  Ends-remove_first p nodes (e ∷ es) h = ground (arith, Ends-remove_first p nodes es h.2)

elem-outgoing :
    {N C : Type 0} (nodes : Map N) (es : List (Edge C)) (u v : ℕ)
    → Ends nodes es
    → elem v (outgoing u es) ≡ true
    → contains_key v nodes ≡ true
elem-outgoing nodes [] u v h m = cc
elem-outgoing nodes (e ∷ es) u v h m = ground (arith, elem-outgoing nodes es u v h.2, ==_iff e.to v)

module _ {M C : Type 0} where
  pub record InSync (g : FlowGraph M C) : Type 0 where
    pub keyed : (k : ℕ) → contains_key k g.adjacency ≡ contains_key k g.nodes
    pub synced : (k : ℕ) → targets g.adjacency k ≡ outgoing k g.edges
    pub closed : Ends g.nodes g.edges

  -- What the index leads to is a node of the graph.
  pub targets-known :
      (g : FlowGraph M C)
      → InSync g
      → (u v : ℕ) → elem v (targets g.adjacency u) ≡ true
      → elem v (keys g.nodes) ≡ true
  targets-known g s u v h =
      elem-keys v g.nodes ∙ elem-outgoing g.nodes g.edges u v s.closed (rw (s.synced u) at h)
