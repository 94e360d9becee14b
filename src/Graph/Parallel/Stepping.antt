-- ===== src/Graph/Parallel/Stepping.antt =====
-- A branch at a node makes the transitions that make up one hop of the sequential walk.
use nyarix_runtime.Base.{
  ℕ, ◌≡◌, ◌≢◌, refl, sym, ◌∙◌, inl, inr, List, [], ◌∷◌, Option, none, some, Result, ok, err,
  ==_refl, Option-cases, Result-cases,
}
use nyarix_runtime.Base.Maps.{lookup, insert, lookup-insert, insert_same, insert_twice}
use nyarix_runtime.Errors.{missing_node, build_failed, queue_full}
use nyarix_runtime.Packet.{Packet, record_hop}
use nyarix_runtime.Packet.Tags.{Bitflags}
use nyarix_runtime.Graph.Channel.{Mpsc}
use nyarix_runtime.Graph.Node.{GraphNode, Modules, process}
use nyarix_runtime.Graph.Queue.{NodeQueue, try_send, try_recv_prioritized}
use nyarix_runtime.Graph.Execution.{
  ExecutionError, graph_failed, Hopped, hopped, Ran, returned, check_payload_limit, after_process,
  enqueue_and_process, hop, next_edge, execute_loop, execute_sequential,
}
use nyarix_runtime.Graph.Execution
use nyarix_runtime.Graph.Parallel.{
  Exited, Branch, enters, sends, receives, returns, Shared, Surroundings, with_node, step_on,
  receive, advance, leaf, Reach, start, next,
}

-- The answer of a walk and that of a branch.
abbrev pub Same :
    Result (Option Packet) ExecutionError → Result (List Exited) ExecutionError → Type 0
Same (ok none) r = r ≡ ok []
Same (ok (some p)) r = (x : ℕ) × (r ≡ ok ((x, p) ∷ []))
Same (err e) r = r ≡ err e

-- The walk was not ended by a queue that has no room, for which a branch waits.
abbrev pub NotFull : Result (Option Packet) ExecutionError → Type 0
NotFull a = (id : ℕ) → a ≢ err (graph_failed (build_failed (queue_full id)))

module _ {M C : Type 0} (ops : Modules M) (ch : Mpsc C Packet) (fl : Bitflags) (t : ℕ) where
  abbrev pub sur : Surroundings M C
  sur = record { ops = ops; ch = ch; fl = fl; clock = λ p x. t }

  with_node_twice :
      (s : Shared M C) (x : ℕ) (n : GraphNode M C) (h : Hopped M C)
      → step_on sur (with_node sur s x n) x h ≡ step_on sur s x h
  unfolding step_on with_node
  with_node_twice s x n Execution.panicked = refl
  with_node_twice s x n (hopped node (err e)) = rw (insert_twice x node n s.graph.nodes) refl
  with_node_twice s x n (hopped node (ok none)) = rw (insert_twice x node n s.graph.nodes) refl
  with_node_twice s x n (hopped node (ok (some p))) = rw (insert_twice x node n s.graph.nodes) refl

  pub chain :
      {s : Shared M C} {b : Branch} {u : Shared M C} {c : Branch} {v : Shared M C} {d : Branch}
      → Reach sur s b u c
      → Reach sur u c v d
      → Reach sur s b v d
  chain r start = r
  chain r (next q k) = next (chain r q) k

  -- What is reached by a transition that may be missing.
  abbrev pub Leads : Shared M C → Branch → Option (Shared M C × Branch) → Type 0
  Leads s b none = Unit {0}
  Leads s b (some (u, c)) = Reach sur s b u c

  one_more :
      {s : Shared M C} {b : Branch} (u : Shared M C) (c : Branch) (o : Option (Shared M C × Branch))
      → Reach sur s b u c
      → advance sur u c ≡ o
      → Leads s b o
  one_more u c none r e = tt
  one_more u c (some (v, d)) r e = next r (leaf e)

  enters_lem :
      (s : Shared M C) (x : ℕ) (node : GraphNode M C) (p : Packet)
      → lookup x s.graph.nodes ≡ some node
      → check_payload_limit ops node p ≡ ok tt
      → advance sur s (enters x p) ≡ some (s, sends x (record_hop t p x))
  unfolding advance
  enters_lem s x node p e good = rw (advance, e, good) refl

  sends_lem :
      (s : Shared M C) (x : ℕ) (node : GraphNode M C) (p : Packet) (q : NodeQueue C)
      → lookup x s.graph.nodes ≡ some node
      → try_send ch fl node.queue p ≡ some q
      → advance sur s (sends x p) ≡ some (with_node sur s x (record node { queue = q }), receives x)
  unfolding advance
  sends_lem s x node p q e sent = rw (advance, e, sent) refl

  receives_lem :
      (s : Shared M C) (x : ℕ) (node : GraphNode M C) (q left : NodeQueue C) (queued : Packet)
      → try_recv_prioritized ch q ≡ some (queued, left)
      → advance sur (with_node sur s x (record node { queue = q })) (receives x)
        ≡ step_on sur s x (
            after_process ops
              (ops.process_time node.module_arc queued)
              (process ops (record node { queue = left }) queued))
  unfolding advance receive with_node
  receives_lem s x node q left queued got =
      let there : lookup x (insert x (record node { queue = q }) s.graph.nodes)
          ≡ some (record node { queue = q }) =
        lookup-insert x x (record node { queue = q }) s.graph.nodes ∙ rw (==_refl x) refl in
      rw (advance, there, receive, got) (with_node_twice s x (record node { queue = q }) _)

  refuses :
      (s : Shared M C) (x : ℕ) (node : GraphNode M C) (p : Packet) (bad : ExecutionError)
      → lookup x s.graph.nodes ≡ some node
      → check_payload_limit ops node p ≡ err bad
      → Leads s (enters x p) (step_on sur s x (hopped node (err bad)))
  unfolding advance step_on with_node
  refuses s x node p bad e k =
      rw (insert_same x node s.graph.nodes e) (next start (leaf (rw (advance, e, k) refl)))

  pub hop_steps :
      (s : Shared M C) (x : ℕ) (node n : GraphNode M C) (p : Packet)
      (a : Result (Option Packet) ExecutionError)
      → lookup x s.graph.nodes ≡ some node
      → hop ops ch fl t x node p ≡ hopped n a
      → NotFull a
      → Leads s (enters x p) (step_on sur s x (hopped n a))
  unfolding hop enqueue_and_process
  hop_steps s x node n p a e h room = elim (Result-cases (check_payload_limit ops node p)) [
    | inr (bad, k) ↦
        let refused : hop ops ch fl t x node p ≡ hopped node (err bad) = rw (hop, k) refl in
        rw (sym h ∙ refused) (refuses s x node p bad e k)
    | inl (ok_, good) ↦ elim (Option-cases (try_send ch fl node.queue (record_hop t p x))) [
      | inl full ↦
          let no_room : hop ops ch fl t x node p
              ≡ hopped node (err (graph_failed (build_failed (queue_full node.id)))) =
            rw (hop, good, enqueue_and_process, full) refl in
          absurd (room node.id (cc (h, no_room)))
      | inr (q, sent) ↦ elim (Option-cases (try_recv_prioritized ch q)) [
        | inl none_ ↦
            let lost : hop ops ch fl t x node p ≡ Execution.panicked =
              rw (hop, good, enqueue_and_process, sent, none_) refl in
            absurd (cc (h, lost))
        | inr ((queued, left), got) ↦
            let same : hopped n a
                ≡ after_process ops (ops.process_time node.module_arc queued)
                    (process ops (record node { queue = left }) queued) =
              sym h ∙ rw (hop, good, enqueue_and_process, sent, got) refl in
            rw (same, ← receives_lem s x node q left queued got)
              (one_more (with_node sur s x (record node { queue = q })) (receives x) _
                (next (next start (leaf (enters_lem s x node p e good)))
                  (leaf (sends_lem s x node (record_hop t p x) q e sent)))
                refl)
      ]
    ]
  ]

  pub missing_lem :
      (s : Shared M C) (x : ℕ) (p : Packet)
      → lookup x s.graph.nodes ≡ none
      → advance sur s (enters x p) ≡ some (s, returns (err (graph_failed (missing_node x))))
  unfolding advance
  missing_lem s x p e = rw (advance, e) refl
