-- ===== src/Graph/Execution/Walk.antt =====
-- The loop of `execute_sequential` on a graph without cycles.
use nyarix_runtime.Base.{
  ℕ, suc, zero, ◌<◌, ◌≡◌, refl, sym, ◌∙◌, ◌⊎◌, inl, inr, Bool, true, false, ◌&&◌, List, [], ◌∷◌,
  ◌++◌, none, some, ok, err, arith, elem, elem-append, find, retain, ◌==◌, ==_iff, ==_refl,
  Bool-cases, Option-cases,
}
use nyarix_runtime.Base.Maps.{lookup, insert, contains_key, keys, elem-keys, lookup-insert}
use nyarix_runtime.Base.Walks.{Route, Reach, step, unseen, unseen_lt}
use nyarix_runtime.Errors.{missing_node, build_failed, queue_full, no_accepting_edge}
use nyarix_runtime.Packet.{Packet}
use nyarix_runtime.Packet.Tags.{Bitflags}
use nyarix_runtime.Graph.Channel.{Mpsc}
use nyarix_runtime.Graph.Edge.{Edge, accepts}
use nyarix_runtime.Graph.Node.{GraphNode, Modules}
use nyarix_runtime.Graph.Flow.{FlowGraph, targets}
use nyarix_runtime.Graph.Flow.Sync.{InSync, outgoing, targets-known}
use nyarix_runtime.Graph.Search.Paths.{Linked}
use nyarix_runtime.Graph.Cycle.Marks.{Follows, Route-concat, cycle_from-IsCycle}
use nyarix_runtime.Graph.Validate.Report.{Acyclic}
use nyarix_runtime.Graph.Execution.Hop.{Mild, hop-HopOk}
use nyarix_runtime.Graph.Execution.{
  ExecutionError, module_failed, graph_failed, Hopped, hopped, Ran, returned, panicked, out_of_fuel,
  next_edge, execute_loop,
}
use nyarix_runtime.Graph.Execution

find-Linked :
    {C : Type 0} (p : Edge C → Bool) (u : ℕ) (es : List (Edge C)) (e : Edge C)
    → find p (retain (λ e. e.from == u) es) ≡ some e
    → elem e.to (outgoing u es) ≡ true
find-Linked p u [] e h = cc
find-Linked p u (x ∷ es) e h = ground (arith, find-Linked p u es e, ==_refl e.to)

module _ {M C : Type 0} where
  -- The graph after a walk: its topology is the one before, and it has the same nodes.
  pub record SameShape (g g' : FlowGraph M C) : Type 0 where
    pub edges : g'.edges ≡ g.edges
    pub adjacency : g'.adjacency ≡ g.adjacency
    pub entry_points : g'.entry_points ≡ g.entry_points
    pub exit_points : g'.exit_points ≡ g.exit_points
    pub allowed : g'.allowed_feedback_edges ≡ g.allowed_feedback_edges
    pub nodes : (k : ℕ) → contains_key k g'.nodes ≡ contains_key k g.nodes

  pub SameShape-refl : (g : FlowGraph M C) → SameShape g g
  SameShape-refl g = record {
    edges = refl;
    adjacency = refl;
    entry_points = refl;
    exit_points = refl;
    allowed = refl;
    nodes = λ k. refl;
  }

  -- Replacing a node that is there.
  pub SameShape-insert :
      (g h : FlowGraph M C) (k : ℕ) (n n' : GraphNode M C)
      → lookup k h.nodes ≡ some n
      → SameShape g h
      → SameShape g (record h { nodes = insert k n' h.nodes })
  SameShape-insert g h k n n' e s = record {
    edges = s.edges;
    adjacency = s.adjacency;
    entry_points = s.entry_points;
    exit_points = s.exit_points;
    allowed = s.allowed;
    nodes = λ j. ground (arith, s.nodes j, lookup-insert k j n' h.nodes, ==_iff k j);
  }

  -- What the loop says of the answer, for a walk that began at `entry`.
  abbrev pub WalkOk : FlowGraph M C → ℕ → Ran M C → Type 0
  WalkOk g entry (returned g' (ok (some p))) =
      SameShape g g' × ((x : ℕ) × (elem x g.exit_points ≡ true) × Reach (Linked g) entry x)
  WalkOk g entry (returned g' (ok none)) = SameShape g g'
  WalkOk g entry (returned g' (err (module_failed e))) = SameShape g g'
  WalkOk g entry (returned g' (err (graph_failed (build_failed (queue_full id))))) = SameShape g g'
  WalkOk g entry (returned g' (err (graph_failed (build_failed (no_accepting_edge x))))) =
      SameShape g g' × (elem x g.exit_points ≡ false) × Reach (Linked g) entry x
  WalkOk g entry (returned g' (err (graph_failed (missing_node x)))) =
      SameShape g g'
      × (x ≡ entry)
      × (elem entry g.entry_points && contains_key entry g.nodes ≡ false)
  WalkOk g entry (returned g' (err (graph_failed _))) = ⊥
  WalkOk g entry panicked = ⊥
  WalkOk g entry out_of_fuel = ⊥

  Mild-WalkOk :
      (g g' : FlowGraph M C) (entry : ℕ) (x : ExecutionError)
      → Mild (err x)
      → SameShape g g'
      → WalkOk g entry (returned g' (err x))
  Mild-WalkOk g g' entry (module_failed e) h s = s
  Mild-WalkOk g g' entry (graph_failed (build_failed (queue_full id))) h s = s
  Mild-WalkOk g g' entry (graph_failed _) h s = absurd h

  pub Hopped-cases :
      (r : Hopped M C)
      → ((n : GraphNode M C) × (x : ExecutionError) × (r ≡ hopped n (err x)))
        ⊎ ((n : GraphNode M C) × (r ≡ hopped n (ok none)))
        ⊎ ((n : GraphNode M C) × (q : Packet) × (r ≡ hopped n (ok (some q))))
        ⊎ (r ≡ Execution.panicked)
  Hopped-cases (hopped n (err x)) = inl (n, x, refl)
  Hopped-cases (hopped n (ok none)) = inr (inl (n, refl))
  Hopped-cases (hopped n (ok (some q))) = inr (inr (inl (n, q, refl)))
  Hopped-cases Execution.panicked = inr (inr (inr refl))

-- A walk that began at `entry` in the graph `g` without cycles, has gone through `s` and is at
-- `current`, with fuel `f`.
pub record Walking {M C : Type 0} (g : FlowGraph M C) (entry : ℕ) (f : ℕ) (h : FlowGraph M C)
    (s : List ℕ) (current : ℕ) : Type 0 where
  pub synced : InSync g
  pub strict : g.allowed_feedback_edges ≡ []
  pub acyclic : Acyclic g
  pub same : SameShape g h
  pub route : Route (Follows g.adjacency g.allowed_feedback_edges) entry current s
  pub reach : Reach (Linked g) entry current
  pub known : contains_key current g.nodes ≡ true
  pub enough : unseen (λ k. elem k s) (keys g.nodes) < f

module _ {M C : Type 0} where
  -- The walk goes on over an edge.
  Walking-next :
      (g h : FlowGraph M C) (entry f current : ℕ) (s : List ℕ) (e : Edge C) (fl : Bitflags)
      (p : Packet)
      → Walking g entry (suc f) h s current
      → (h' : FlowGraph M C) → SameShape g h'
      → next_edge fl h' current p ≡ some e
      → Walking g entry f h' (s ++ e.to ∷ []) e.to
  Walking-next g h entry f current s e fl p w h' same found =
      let linked : Linked g current e.to =
        rw (← same.edges) (find-Linked (λ e. accepts fl e p) current h'.edges e found) in
      let target : elem e.to (targets g.adjacency current) ≡ true =
        rw (w.synced.synced current) linked in
      let follows : Follows g.adjacency g.allowed_feedback_edges current e.to =
        (target, rw w.strict refl) in
      let there = targets-known g w.synced current e.to target in
      record {
        synced = w.synced;
        strict = w.strict;
        acyclic = w.acyclic;
        same = same;
        route = Route-concat w.route follows;
        reach = step w.reach linked;
        known = sym (elem-keys e.to g.nodes) ∙ there;
        enough = elim (Bool-cases (elem e.to s)) [
          | inl again ↦ absurd (
              w.acyclic _ (
                cycle_from-IsCycle g.adjacency g.allowed_feedback_edges s entry current e.to w.route
                  follows again))
          | inr fresh ↦
              let less =
                unseen_lt (λ k. elem k s) (λ k. elem k (s ++ e.to ∷ [])) (keys g.nodes) e.to
                  (λ k m. ground (arith, elem-append k s (e.to ∷ []))) there fresh
                  (ground (arith, elem-append e.to s (e.to ∷ []), ==_refl e.to)) in
              omega (arith, less, w.enough)
        ];
      }

module _ {M C : Type 0} (ops : Modules M) (ch : Mpsc C Packet) (fl : Bitflags) (now : ℕ → ℕ) where
  pub execute_loop-WalkOk :
      (f i : ℕ) (g h : FlowGraph M C) (entry current : ℕ) (s : List ℕ) (p : Packet)
      → Walking g entry f h s current
      → WalkOk g entry (execute_loop ops ch fl now f i h current p)
  unfolding execute_loop
  execute_loop-WalkOk zero i g h entry current s p w = absurd (omega (arith, w.enough))
  execute_loop-WalkOk (suc f) i g h entry current s p w =
      elim (Option-cases (lookup current h.nodes)) [
        | inl e ↦ absurd (lost e)
        | inr (n, e) ↦
            let ok_ = hop-HopOk ops ch fl (now i) current n p in
            elim (Hopped-cases (Execution.hop ops ch fl (now i) current n p)) [
              | inl (n', x, r) ↦
                  rw (e, execute_loop, r)
                    (Mild-WalkOk g _ entry x (rw r at ok_)
                      (SameShape-insert g h current n n' e w.same))
              | inr (inl (n', r)) ↦
                  rw (e, execute_loop, r) (SameShape-insert g h current n n' e w.same)
              | inr (inr (inr r)) ↦ absurd (rw r at ok_)
              | inr (inr (inl (n', q, r))) ↦
                  let h' = record h { nodes = insert current n' h.nodes } in
                  let same = SameShape-insert g h current n n' e w.same in
                  elim (Bool-cases (elem current h.exit_points)) [
                    | inl out ↦
                        rw (e, execute_loop, r, out)
                          (same, (current, rw (← w.same.exit_points) out, w.reach))
                    | inr inner ↦ elim (Option-cases (next_edge fl h' current q)) [
                      | inl dead ↦
                          rw (e, execute_loop, r, inner, dead)
                            (same, rw (← w.same.exit_points) inner, w.reach)
                      | inr (x, go_on) ↦
                          rw (e, execute_loop, r, inner, go_on)
                            (execute_loop-WalkOk f (suc i) g h' entry x.to (s ++ x.to ∷ []) q
                              (Walking-next g h entry f current s x fl q w h' same go_on))
                    ]
                  ]
            ]
      ]
    where
      lost : ¬ (lookup current h.nodes ≡ none)
      lost e = let k = w.same.nodes current ∙ w.known in ground arith
