-- ===== src/Graph/Parallel/Exits.antt =====
-- Where the branches of a parallel execution go, and where they end.
use nyarix_runtime.Base.{
  ℕ, zero, suc, ◌≡◌, refl, subst, inl, inr, true, none, some, ok, err, elem, retain, Bool-cases,
  Option-cases, Result-cases,
}
use nyarix_runtime.Base.Maps.{lookup}
use nyarix_runtime.Base.Walks
use nyarix_runtime.Packet.{Packet}
use nyarix_runtime.Graph.Edge.{accepts}
use nyarix_runtime.Graph.Node.{GraphNode}
use nyarix_runtime.Graph.Queue.{try_send, try_recv_prioritized}
use nyarix_runtime.Graph.Flow.{FlowGraph, edges_from}
use nyarix_runtime.Graph.Flow.Sync.{outgoing}
use nyarix_runtime.Graph.Execution.{Hopped, hopped, panicked, check_payload_limit}
use nyarix_runtime.Graph.Execution.Walk.{SameShape, SameShape-refl, SameShape-insert}
use nyarix_runtime.Graph.Parallel.{
  Branch, waits_permit, enters, sends, receives, joins, returns, Branches, nil, cons, Shared,
  Surroundings, is_parallel, with_node, lane, step_on, receive, advance, Step, leaf, inner, joined,
  failed, StepIn, here, there, Reach, start, next, execute_parallel,
}
use nyarix_runtime.Graph.Parallel.Places.{
  To, To-map, To-retain, To-outgoing, Reached, AtExits, Placed, AllPlaced, AtExits-append,
  fork-Placed, Placed-Picked, After,
}

module _ {M C : Type 0} (sur : Surroundings M C) (g : FlowGraph M C) (entry : ℕ) where
  accepted-Reached :
      (s : Shared M C) (x : ℕ) (p : Packet)
      → SameShape g s.graph
      → Reached g entry x
      → To (Reached g entry) (retain (λ e. accepts sur.fl e p) (edges_from s.graph x))
  accepted-Reached s x p same r =
      To-retain (Reached g entry) (λ e. accepts sur.fl e p) (edges_from s.graph x)
        (To-map (λ v. elem v (outgoing x s.graph.edges) ≡ true) (Reached g entry)
          (edges_from s.graph x) (λ v h. Walks.step r (rw (← same.edges) h))
          (To-outgoing x s.graph.edges))

  step_on-After :
      (s : Shared M C) (x : ℕ) (node : GraphNode M C) (h : Hopped M C)
      → SameShape g s.graph
      → lookup x s.graph.nodes ≡ some node
      → Reached g entry x
      → After g entry (step_on sur s x h)
  unfolding step_on After with_node Placed AtExits
  step_on-After s x node panicked same e r = tt
  step_on-After s x node (hopped n (err y)) same e r =
      (SameShape-insert g s.graph x node n e same, tt)
  step_on-After s x node (hopped n (ok none)) same e r =
      (SameShape-insert g s.graph x node n e same, tt)
  step_on-After s x node (hopped n (ok (some p))) same e r =
      elim (Bool-cases (elem x s.graph.exit_points)) [
        | inl on ↦
            rw on (SameShape-insert g s.graph x node n e same, (rw (← same.exit_points) on, r, tt))
        | inr off ↦
            let accepting = retain (λ e. accepts sur.fl e p) (edges_from s.graph x) in
            let to = accepted-Reached s x p same r in
            rw off (
              SameShape-insert g s.graph x node n e same,
              fork-Placed g entry x p (retain is_parallel accepting) accepting
                  (To-retain (Reached g entry) is_parallel accepting to) to,
            )
      ]

  receive-After :
      (s : Shared M C) (x : ℕ) (node : GraphNode M C)
      → SameShape g s.graph
      → lookup x s.graph.nodes ≡ some node
      → Reached g entry x
      → After g entry (receive sur s x node)
  unfolding receive After
  receive-After s x node same e r = elim (Option-cases (try_recv_prioritized sur.ch node.queue)) [
    | inl q ↦ rw (q, receive) tt
    | inr ((queued, left), q) ↦ rw (q, receive) (step_on-After s x node _ same e r)
  ]

  permit-After :
      (n : ℕ) (s : Shared M C) (x : ℕ) (p : Packet)
      → s.permits ≡ n
      → SameShape g s.graph
      → Reached g entry x
      → After g entry (advance sur s (waits_permit x p))
  unfolding advance After Placed
  permit-After zero s x p e same r = rw (e, advance) tt
  permit-After (suc n) s x p e same r = rw (e, advance) (same, r)

  advance-After :
      (s : Shared M C) (b : Branch)
      → SameShape g s.graph
      → Placed g entry b
      → After g entry (advance sur s b)
  unfolding advance After with_node Placed AllPlaced AtExits
  advance-After s (waits_permit x p) same r = permit-After s.permits s x p refl same r
  advance-After s (enters x p) same r = elim (Option-cases (lookup x s.graph.nodes)) [
    | inl e ↦ rw (e, advance) (same, tt)
    | inr (node, e) ↦ elim (Result-cases (check_payload_limit sur.ops node p)) [
      | inl (u, k) ↦ rw (e, advance, k) (same, r)
      | inr (y, k) ↦ rw (e, advance, k) (same, tt)
    ]
  ]
  advance-After s (sends x p) same r = elim (Option-cases (lookup x s.graph.nodes)) [
    | inl e ↦ rw (e, advance) (same, tt)
    | inr (node, e) ↦ elim (Option-cases (try_send sur.ch sur.fl node.queue p)) [
      | inr (q, k) ↦ rw (e, advance, k) (SameShape-insert g s.graph x node _ e same, r)
      | inl k ↦ elim (Bool-cases (sur.ch.is_open (lane sur node.queue p))) [
        | inl o ↦ rw (e, advance, k, o) tt
        | inr o ↦ rw (e, advance, k, o) (same, tt)
      ]
    ]
  ]
  advance-After s (receives x) same r = elim (Option-cases (lookup x s.graph.nodes)) [
    | inl e ↦ rw (e, advance) (same, tt)
    | inr (node, e) ↦ rw (e, advance) (receive-After s x node same e r)
  ]
  advance-After s (joins nil results) same r = (same, r.1)
  advance-After s (joins (cons b bs) results) same r = tt
  advance-After s (returns r) same _ = tt

  mutual
    unfolding After Placed AllPlaced

    Step-Placed :
        {s t : Shared M C} {b c : Branch}
        → Step sur s b t c
        → SameShape g s.graph
        → Placed g entry b
        → SameShape g t.graph × Placed g entry c
    Step-Placed {s} {t} {b} {c} (leaf e) same p = subst (After g entry) e (advance-After s b same p)
    Step-Placed (inner k) same (p, r) = let (same', q) = StepIn-Placed k same p in (same', (q, r))
    Step-Placed (joined {s} {bs} {cs} {results} {packets} k) same (p, r) =
        let (q, qs) = Placed-Picked g entry (returns (ok packets)) bs cs k p in
        (same, (qs, AtExits-append g entry results packets r q))
    Step-Placed (failed k) same p = (same, tt)

    StepIn-Placed :
        {s t : Shared M C} {bs cs : Branches}
        → StepIn sur s bs t cs
        → SameShape g s.graph
        → AllPlaced g entry bs
        → SameShape g t.graph × AllPlaced g entry cs
    StepIn-Placed (here k) same (p, ps) = let (same', q) = Step-Placed k same p in (same', (q, ps))
    StepIn-Placed (there k) same (p, ps) =
        let (same', q) = StepIn-Placed k same ps in (same', (p, q))

  Reach-steps :
      {s : Shared M C} {b : Branch} {t : Shared M C} {c : Branch}
      → Reach sur s b t c
      → SameShape g s.graph
      → Placed g entry b
      → SameShape g t.graph × Placed g entry c
  Reach-steps start same p = (same, p)
  Reach-steps (next r k) same p = let (same', q) = Reach-steps r same p in Step-Placed k same' q

  start-Placed :
      (p : Packet) (max_branches : ℕ)
      → SameShape g ((execute_parallel g entry p max_branches).0.graph)
        × Placed g entry ((execute_parallel g entry p max_branches).1)
  unfolding execute_parallel Placed
  start-Placed p n = elim (Bool-cases (elem entry g.entry_points)) [
    | inl on ↦ rw on (SameShape-refl g, Walks.here)
    | inr off ↦ rw off (SameShape-refl g, tt)
  ]

  -- In every interleaving of the branches the topology, the entry and exit points and the set of nodes
  -- stay as they were, a walk leads from the entry to every node at which a branch stands, and every
  -- packet among the results left its branch at an exit point that a walk from the entry leads to.
  pub Reach-Placed :
      (p : Packet) (max_branches : ℕ) {s : Shared M C} {b : Branch}
      → Reach sur
          (execute_parallel g entry p max_branches).0
          (execute_parallel g entry p max_branches).1
          s
          b
      → SameShape g s.graph × Placed g entry b
  Reach-Placed p n r = let (same, placed) = start-Placed p n in Reach-steps r same placed
