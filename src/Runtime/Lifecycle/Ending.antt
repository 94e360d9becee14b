-- ===== src/Runtime/Lifecycle/Ending.antt =====
-- In which states the nodes of a graph are after its end.
use nyarix_runtime.Base.{
  ℕ, ◌≡◌, refl, ◌∙◌, ◌⊎◌, inl, inr, true, false, List, [], ◌∷◌, Option, none, some, Result, ok, err,
  ◌==◌, ==_iff, elem, arith, Bool-cases, Option-cases,
}
use nyarix_runtime.Base.Maps.{Map, lookup, insert, keys, elem-keys, lookup-insert}
use nyarix_runtime.Errors.{ModuleError}
use nyarix_runtime.Packet.{Packet}
use nyarix_runtime.Graph.Channel.{Mpsc}
use nyarix_runtime.Graph.Queue.{drain}
use nyarix_runtime.Graph.Queue.Order.{pending, drain-pending}
use nyarix_runtime.Graph.Node.{
  GraphNode, Modules, NodeState, stopped, stopping, shutdown, settle, exclusively,
}
use nyarix_runtime.Graph.Flow.{FlowGraph}
use nyarix_runtime.Runtime.Lifecycle.AllNodes.{
  IfThere, IfThere-map, settle-cases, state-exclusively,
}
use nyarix_runtime.Runtime.Lifecycle.{
  first_of, of_first, drain_and_shutdown, shutdown_each, shutdown_all_nodes,
}

module _ {M C : Type 0} (ops : Modules M) (ch : Mpsc C Packet) where
  queue-settle :
      (s : NodeState) (r : GraphNode M C × Result (Unit {0}) ModuleError)
      → (settle ops s r).0.queue ≡ r.0.queue
  unfolding settle
  queue-settle s (n, ok u) = refl
  queue-settle s (n, err e) = refl

  queue-exclusively :
      (n : GraphNode M C) (call : M → M × Result (Unit {0}) ModuleError)
      → (exclusively ops n call).0.queue ≡ n.queue
  unfolding exclusively
  queue-exclusively n call = ground arith

  queue-shutdown : (n : GraphNode M C) → (shutdown ops n).0.queue ≡ n.queue
  unfolding shutdown
  queue-shutdown n = queue-settle stopped _ ∙ queue-exclusively _ ops.shutdown

  shutdown-cases :
      (n : GraphNode M C)
      → (((shutdown ops n).1 ≡ ok tt) × ((shutdown ops n).0.state ≡ stopped))
        ⊎ ((e : ModuleError) × ((shutdown ops n).1 ≡ err e) × ((shutdown ops n).0.state ≡ stopping))
  unfolding shutdown
  shutdown-cases n = settle-cases ops stopped stopping _ (state-exclusively ops _ ops.shutdown)

  -- The state of a node that was shut down, where the first error so far is given.
  abbrev pub Ended : Option ModuleError → NodeState → Type 0
  Ended none s = s ≡ stopped
  Ended (some e) s = (s ≡ stopped) ⊎ (s ≡ stopping)

  -- How a node stands after it was shut down.
  abbrev pub Shut : Option ModuleError → GraphNode M C → Type 0
  Shut first n = (pending ch n.queue ≡ []) × Ended first n.state

  Ended-first_of :
      (first : Option ModuleError) (r : Result (Unit {0}) ModuleError) (s : NodeState)
      → Ended first s
      → Ended (first_of first r) s
  Ended-first_of none (ok u) s h = h
  Ended-first_of none (err e) s h = inl h
  Ended-first_of (some e) r s h = h

  Ended-stopped :
      (first : Option ModuleError) (s : NodeState) → s ≡ stopped → Ended (first_of first (ok tt)) s
  Ended-stopped none s h = h
  Ended-stopped (some e) s h = inl h

  Ended-stopping :
      (first : Option ModuleError) (x : ModuleError) (s : NodeState)
      → s ≡ stopping
      → Ended (first_of first (err x)) s
  Ended-stopping none x s h = inr h
  Ended-stopping (some e) x s h = inr h

  drain_and_shutdown-Shut :
      (first : Option ModuleError) (n : GraphNode M C)
      → Shut (first_of first (drain_and_shutdown ops ch n).1) (drain_and_shutdown ops ch n).0
  unfolding drain_and_shutdown
  drain_and_shutdown-Shut first n =
      let drained = record n { queue = (drain ch n.queue).1 } in
      (
        rw (queue-shutdown drained) ((drain-pending ch n.queue).1),
        elim (shutdown-cases drained) [
          | inl (a, s) ↦ rw a (Ended-stopped first _ s)
          | inr (x, a, s) ↦ rw a (Ended-stopping first x _ s)
        ],
      )

  -- In the middle of the end: the node was shut down, or its turn comes.
  abbrev Waiting : List ℕ → Option ModuleError → ℕ → GraphNode M C → Type 0
  Waiting ids first k n = Shut first n ⊎ (elem k ids ≡ true)

  Waiting-end :
      (first : Option ModuleError) (k : ℕ) (n : GraphNode M C) → Waiting [] first k n → Shut first n
  Waiting-end first k n (inl s) = s
  Waiting-end first k n (inr m) = cc

  Waiting-next :
      (first : Option ModuleError) (r : Result (Unit {0}) ModuleError) (id k : ℕ) (ids : List ℕ)
      (n : GraphNode M C)
      → (id == k) ≡ false
      → Waiting (id ∷ ids) first k n
      → Waiting ids (first_of first r) k n
  Waiting-next first r id k ids n other (inl s) = inl (s.0, Ended-first_of first r n.state s.1)
  Waiting-next first r id k ids n other (inr m) = inr (ground arith)

  Waiting-skip :
      (first : Option ModuleError) (id k : ℕ) (ids : List ℕ) (n : GraphNode M C)
      → (id == k) ≡ false
      → Waiting (id ∷ ids) first k n
      → Waiting ids first k n
  Waiting-skip first id k ids n other (inl s) = inl s
  Waiting-skip first id k ids n other (inr m) = inr (ground arith)

  shutdown_each-Shut :
      (ids : List ℕ) (nodes : Map (GraphNode M C)) (first : Option ModuleError)
      → ((k : ℕ) → IfThere (Waiting ids first k) (lookup k nodes))
      → (k : ℕ)
      → IfThere
          (Shut (shutdown_each ops ch ids nodes first).1)
          (lookup k (shutdown_each ops ch ids nodes first).0)
  unfolding shutdown_each
  shutdown_each-Shut [] nodes first h k =
      IfThere-map (Waiting [] first k) (Shut first) (lookup k nodes) (Waiting-end first k) (h k)
  shutdown_each-Shut (id ∷ ids) nodes first h k = elim (Option-cases (lookup id nodes)) [
    | inl e ↦
        rw (e, shutdown_each)
          (shutdown_each-Shut ids nodes first
            (λ j. elim (Bool-cases (id == j)) [
              | inl same ↦
                  let gone : lookup j nodes ≡ none = rw (← (==_iff id j).0 same) e in rw gone tt
              | inr other ↦
                  IfThere-map (Waiting (id ∷ ids) first j) (Waiting ids first j) (lookup j nodes)
                    (λ n. Waiting-skip first id j ids n other) (h j)
            ])
            k)
    | inr (n, e) ↦
        let n' = (drain_and_shutdown ops ch n).0 in
        let r = (drain_and_shutdown ops ch n).1 in
        rw (e, shutdown_each)
          (shutdown_each-Shut ids (insert id n' nodes) (first_of first r)
            (λ j. rw (lookup-insert id j n' nodes) (elim (Bool-cases (id == j)) [
              | inl same ↦ rw same (inl (drain_and_shutdown-Shut first n))
              | inr other ↦ rw other (
                  IfThere-map (Waiting (id ∷ ids) first j) (Waiting ids (first_of first r) j)
                    (lookup j nodes) (λ n. Waiting-next first r id j ids n other) (h j))
            ]))
            k)
  ]

  -- The error that a result carries.
  abbrev pub error_of : Result (Unit {0}) ModuleError → Option ModuleError
  error_of (ok u) = none
  error_of (err e) = some e

  error_of-of_first : (first : Option ModuleError) → error_of (of_first first) ≡ first
  error_of-of_first none = refl
  error_of-of_first (some e) = refl

  begins :
      (k : ℕ) (m : Map (GraphNode M C)) (o : Option (GraphNode M C))
      → lookup k m ≡ o
      → IfThere (Waiting (keys m) none k) o
  begins k m none e = tt
  begins k m (some n) e = inr (elem-keys k m ∙ rw e refl)

  -- After `shutdown_all_nodes`, whether it succeeds or fails, no node of the graph has a packet left in
  -- its queue. If it succeeds every node is stopped, and otherwise each is stopped or stopping.
  pub shutdown_all_nodes-Shut :
      (g : FlowGraph M C) (k : ℕ)
      → IfThere
          (Shut (error_of (shutdown_all_nodes ops ch g).1))
          (lookup k (shutdown_all_nodes ops ch g).0.nodes)
  unfolding shutdown_all_nodes
  shutdown_all_nodes-Shut g k =
      rw (error_of-of_first (shutdown_each ops ch (keys g.nodes) g.nodes none).1) (
        shutdown_each-Shut (keys g.nodes) g.nodes none
          (λ j. begins j g.nodes (lookup j g.nodes) refl) k)
