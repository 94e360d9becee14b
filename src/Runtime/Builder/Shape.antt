-- ===== src/Runtime/Builder/Shape.antt =====
-- The graph of a profile: its nodes, its edges and its ends.
use mathlib.Core.List.{append_assoc, append-nil}
use nyarix_runtime.Base.{
  ℕ, ◌≡◌, refl, sym, ap, ◌∙◌, inl, inr, Bool, true, false, ◌||◌, ◌==◌, List, [], ◌∷◌, ◌++◌, Option,
  none, ok, arith, elem, any, is_some, map, Option-cases,
}
use nyarix_runtime.Base.Maps.{lookup, adjust, contains_key}
use nyarix_runtime.Packet.{Packet}
use nyarix_runtime.Graph.Channel.{Mpsc}
use nyarix_runtime.Graph.Edge.{Edge, sequential, new_closed}
use nyarix_runtime.Graph.Node.{Modules, default_queue_capacity}
use nyarix_runtime.Graph.Flow.{
  FlowGraph, add_node, push_new, or_default, connect, connect_all, mark_entry_point,
  mark_exit_point,
}
use nyarix_runtime.Graph.Flow
use nyarix_runtime.Runtime.Builder.Adding.{
  is_source, is_sink, newest, typed, elem-push_new, add_nodes-Added,
}
use nyarix_runtime.Runtime.Builder.{add_nodes, chain, chain_of, last_of, mark_ends, identifiers}

-- Each identifier with the next one.
abbrev pub neighbours : ℕ → List ℕ → List (ℕ × ℕ)
neighbours id [] = []
neighbours id (next ∷ ids) = (id, next) ∷ neighbours next ids

module _ {M C : Type 0} (ops : Modules M) (ch : Mpsc C Packet) (resolve : ℕ → Option M) where
  abbrev pub plain : ℕ × ℕ → Edge C
  plain (from, to) = new_closed ch from to sequential none default_queue_capacity

  -- A chain of nodes that are there is connected without fail.
  record Connected (g g' : FlowGraph M C) (es : List (Edge C)) : Type 0 where
    edges : g'.edges ≡ g.edges ++ es
    nodes : g'.nodes ≡ g.nodes
    entries : g'.entry_points ≡ g.entry_points
    exits : g'.exit_points ≡ g.exit_points

  connect_all-chain :
      (g : FlowGraph M C) (id : ℕ) (ids : List ℕ)
      → ((k : ℕ) → elem k (id ∷ ids) ≡ true → contains_key k g.nodes ≡ true)
      → (g' : FlowGraph M C) × (connect_all g (chain ops ch resolve id ids) ≡ (g', ok tt))
        × Connected g g' (map plain (neighbours id ids))
  unfolding connect_all connect new_closed
  connect_all-chain g id [] there = (
    g,
    refl,
    record { edges = sym (append-nil g.edges); nodes = refl; entries = refl; exits = refl },
  )
  connect_all-chain g id (next ∷ ids) there =
      let from : contains_key id g.nodes ≡ true = there id (ground arith) in
      let to : contains_key next g.nodes ≡ true = there next (ground arith) in
      let e = plain (id, next) in
      let linked : FlowGraph M C = record g {
        adjacency = adjust id (λ ts. ts ++ next ∷ []) (or_default id g.adjacency);
        edges = g.edges ++ e ∷ [];
      } in
      let joins : connect g e ≡ ok linked = ground (arith, from, to) in
      let (g', done, c) = connect_all-chain linked next ids (λ k h. there k (ground (arith, h))) in
      (
        g',
        rw (connect_all, joins) done,
        record {
          edges = c.edges ∙ append_assoc g.edges (e ∷ []) (map plain (neighbours next ids));
          nodes = c.nodes;
          entries = c.entries;
          exits = c.exits;
        },
      )

  -- The identifier is the first of the list, or the last.
  abbrev pub is_first : ℕ → List ℕ → Bool
  is_first k [] = false
  is_first k (id ∷ ids) = id == k

  abbrev pub is_last : ℕ → List ℕ → Bool
  is_last k [] = false
  is_last k (id ∷ []) = id == k
  is_last k (id ∷ next ∷ ids) = is_last k (next ∷ ids)

  abbrev pub joined : List ℕ → List (ℕ × ℕ)
  joined [] = []
  joined (id ∷ ids) = neighbours id ids

  -- The graph that a stack describes: the nodes are those of the names, the edges lead from each
  -- identifier to the next one, and the ends are the first and the last, with the sources and sinks.
  pub record Shaped (stack : List (ℕ × ℕ)) (g : FlowGraph M C) : Type 0 where
    pub served : (name : ℕ) → any (λ e. e.0 == name) stack ≡ true → is_some (resolve name) ≡ true
    pub nodes : (k : ℕ) → lookup k g.nodes ≡ newest ops ch resolve stack k
    pub edges : g.edges ≡ map plain (joined (identifiers ops ch resolve stack))
    pub entries :
        (k : ℕ)
        → elem k g.entry_points ≡ (
            is_first k (identifiers ops ch resolve stack) || typed ops ch resolve is_source stack k)
    pub exits :
        (k : ℕ)
        → elem k g.exit_points
          ≡ (is_last k (identifiers ops ch resolve stack) || typed ops ch resolve is_sink stack k)

  last_of-is_last : (k id : ℕ) (ids : List ℕ) → (last_of id ids == k) ≡ is_last k (id ∷ ids)
  last_of-is_last k id [] = refl
  last_of-is_last k id (next ∷ ids) = last_of-is_last k next ids

  mark_ends-ends :
      (k : ℕ) (g : FlowGraph M C) (ids : List ℕ)
      → ((mark_ends g ids).nodes ≡ g.nodes)
        × ((mark_ends g ids).edges ≡ g.edges)
        × (elem k (mark_ends g ids).entry_points ≡ (elem k g.entry_points || is_first k ids))
        × (elem k (mark_ends g ids).exit_points ≡ (elem k g.exit_points || is_last k ids))
  unfolding mark_entry_point mark_exit_point
  mark_ends-ends k g [] = (refl, refl, ground arith, ground arith)
  mark_ends-ends k g (id ∷ ids) = (
    refl,
    refl,
    elem-push_new k id g.entry_points,
    elem-push_new k (last_of id ids) g.exit_points
        ∙ ap (λ b. elem k g.exit_points || b) (last_of-is_last k id ids),
  )

  connect_all-joined :
      (g : FlowGraph M C) (ids : List ℕ)
      → ((k : ℕ) → elem k ids ≡ true → contains_key k g.nodes ≡ true)
      → (g' : FlowGraph M C) × (connect_all g (chain_of ops ch resolve ids) ≡ (g', ok tt))
        × Connected g g' (map plain (joined ids))
  unfolding connect_all
  connect_all-joined g [] there = (
    g,
    refl,
    record { edges = sym (append-nil g.edges); nodes = refl; entries = refl; exits = refl },
  )
  connect_all-joined g (id ∷ ids) there = connect_all-chain g id ids there

  pub connect_all-Shaped :
      (stack : List (ℕ × ℕ)) (g : FlowGraph M C)
      → add_nodes ops ch resolve Flow.new stack ≡ ok g
      → (g' : FlowGraph M C) × (connect_all g
            (chain_of ops ch resolve (identifiers ops ch resolve stack))
          ≡ (g', ok tt))
        × Shaped stack (mark_ends g' (identifiers ops ch resolve stack))
  unfolding Flow.new
  connect_all-Shaped stack g e =
      let ids = identifiers ops ch resolve stack in
      let a = add_nodes-Added ops ch resolve stack Flow.new g e in
      let (g', done, c) = connect_all-joined g ids a.known in
      (
        g',
        done,
        record {
          served = a.served;
          nodes = λ k.
              ap (lookup k) ((mark_ends-ends k g' ids).0 ∙ c.nodes)
              ∙ a.nodes k
              ∙ elim (Option-cases (newest ops ch resolve stack k)) [
                | inl f ↦ ground (arith, f)
                | inr (n, f) ↦ ground (arith, f)
              ];
          edges =
              (mark_ends-ends 0 g' ids).1
              ∙ c.edges
              ∙ ap (λ es. es ++ map plain (joined ids)) a.edges;
          entries =
              λ k. (mark_ends-ends k g' ids).2 ∙ ground (arith, ap (elem k) c.entries, a.entries k);
          exits = λ k. (mark_ends-ends k g' ids).3 ∙ ground (arith, ap (elem k) c.exits, a.exits k);
        },
      )
