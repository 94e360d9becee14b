-- ===== src/Graph/Parallel/Sequential.antt =====
-- Without edges for parallel branches, `execute_parallel` does what `execute_sequential` does.
use Prim.Native.Nat.{max}
use nyarix_runtime.Base.{
  ℕ, zero, suc, ◌+◌, ◌≡◌, refl, inl, inr, false, List, [], ◌∷◌, Option, none, some, Result, ok, err,
  length, elem, retain, find-none, find-some, None, None-retain, ◌==◌, Bool-cases, Option-cases,
}
use nyarix_runtime.Base.Maps.{lookup, insert}
use nyarix_runtime.Packet.{Packet}
use nyarix_runtime.Packet.Tags.{Bitflags}
use nyarix_runtime.Graph.Channel.{Mpsc}
use nyarix_runtime.Graph.Edge.{accepts}
use nyarix_runtime.Graph.Node.{GraphNode, Modules}
use nyarix_runtime.Graph.Flow.{FlowGraph, edges_from}
use nyarix_runtime.Graph.Execution.{
  ExecutionError, graph_failed, Hopped, hopped, Ran, returned, check_payload_limit, after_process,
  enqueue_and_process, hop, next_edge, execute_loop, execute_sequential,
}
use nyarix_runtime.Graph.Execution
use nyarix_runtime.Graph.Execution.Walk.{Hopped-cases}
use nyarix_runtime.Graph.Parallel.{
  Exited, Branch, enters, returns, Shared, is_parallel, fork, with_node, step_on, leaf, Reach,
  start, next, execute_parallel,
}
use nyarix_runtime.Graph.Parallel.Stepping.{Same, NotFull, sur, chain, hop_steps, missing_lem}

module _ {M C : Type 0} (ops : Modules M) (ch : Mpsc C Packet) (fl : Bitflags) (t : ℕ) where
  abbrev shared : ℕ → FlowGraph M C → Shared M C
  shared permits g = record { graph = g; permits = permits }

  -- What a branch does where the walk returns.
  Sim : ℕ → FlowGraph M C → Branch → Ran M C → Type 0
  Sim k g b (returned g' a) =
      NotFull a
      → (r : Result (List Exited) ExecutionError) × Reach (sur ops ch fl t) (shared k g) b
          (shared k g') (returns r)
        × Same a r
  Sim k g b Execution.panicked = Unit {0}
  Sim k g b Execution.out_of_fuel = Unit {0}

  Sim-after :
      (k : ℕ) (g h : FlowGraph M C) (b c : Branch) (ran : Ran M C)
      → Reach (sur ops ch fl t) (shared k g) b (shared k h) c
      → Sim k h c ran
      → Sim k g b ran
  unfolding Sim
  Sim-after k g h b c (returned g' a) q s =
      λ room. let (r, walk, same) = s room in (r, chain ops ch fl t q walk, same)
  Sim-after k g h b c Execution.panicked q s = tt
  Sim-after k g h b c Execution.out_of_fuel q s = tt

  -- Where the walk goes on over an edge, or finds none, so does the branch.
  onward :
      (k : ℕ) (g : FlowGraph M C) (x : ℕ) (node n : GraphNode M C) (p q : Packet)
      → lookup x g.nodes ≡ some node
      → hop ops ch fl t x node p ≡ hopped n (ok (some q))
      → elem x g.exit_points ≡ false
      → Reach
          (sur ops ch fl t)
          (shared k g)
          (enters x p)
          (shared k (record g { nodes = insert x n g.nodes }))
          (fork x q
            (retain is_parallel (retain (λ e. accepts fl e q) (edges_from g x)))
            (retain (λ e. accepts fl e q) (edges_from g x)))
  unfolding step_on with_node
  onward k g x node n p q e r inner =
      let steps =
        hop_steps ops ch fl t (shared k g) x node n p (ok (some q)) e r (λ id b. absurd cc) in
      rw inner at steps

  loop-Sim :
      (f i k : ℕ) (g : FlowGraph M C) (x : ℕ) (p : Packet)
      → None is_parallel g.edges
      → Sim k g (enters x p) (execute_loop ops ch fl (λ i. t) f i g x p)
  unfolding execute_loop Sim step_on with_node fork
  loop-Sim zero i k g x p single = tt
  loop-Sim (suc f) i k g x p single = elim (Option-cases (lookup x g.nodes)) [
    | inl e ↦
        rw (e, execute_loop)
          (λ room. (err _, next start (leaf (missing_lem ops ch fl t (shared k g) x p e)), refl))
    | inr (node, e) ↦ elim (Hopped-cases (hop ops ch fl t x node p)) [
      | inl (n, bad, r) ↦
          rw (e, execute_loop, r)
            (λ room.
              (err bad, hop_steps ops ch fl t (shared k g) x node n p (err bad) e r room, refl))
      | inr (inl (n, r)) ↦
          rw (e, execute_loop, r)
            (λ room.
              (ok [], hop_steps ops ch fl t (shared k g) x node n p (ok none) e r room, refl))
      | inr (inr (inr r)) ↦ rw (e, execute_loop, r) tt
      | inr (inr (inl (n, q, r))) ↦ elim (Bool-cases (elem x g.exit_points)) [
        | inl on ↦
            let steps =
              hop_steps ops ch fl t (shared k g) x node n p (ok (some q)) e r (λ id b. absurd cc) in
            rw (e, execute_loop, r, on) (λ room. (ok ((x, q) ∷ []), rw on at steps, (x, refl)))
        | inr inner ↦
            let alone : retain is_parallel (retain (λ e. accepts fl e q) (edges_from g x)) ≡ [] =
              None-retain is_parallel (λ e. accepts fl e q) (edges_from g x)
                (None-retain is_parallel (λ e. e.from == x) g.edges single) in
            elim (Option-cases (next_edge fl g x q)) [
              | inl dead ↦
                  let left = onward k g x node n p q e r inner in
                  rw (e, execute_loop, r, inner, dead)
                    (λ room. (
                      err _,
                      rw (alone, find-none (λ e. accepts fl e q) (edges_from g x) dead, fork) at
                          left,
                      refl,
                    ))
              | inr (edge, go) ↦
                  let (rest, here) = find-some (λ e. accepts fl e q) (edges_from g x) edge go in
                  let left = onward k g x node n p q e r inner in
                  rw (e, execute_loop, r, inner, go)
                    (Sim-after k g (record g { nodes = insert x n g.nodes }) (enters x p)
                      (enters edge.to q) _ (rw (alone, here, fork) at left)
                      (loop-Sim f (suc i) k (record g { nodes = insert x n g.nodes }) edge.to q
                        single))
            ]
      ]
    ]
  ]

  start-Sim :
      (extra : ℕ) (g : FlowGraph M C) (entry : ℕ) (p : Packet) (max_branches : ℕ)
      → None is_parallel g.edges
      → Sim
          (max max_branches 1)
          g
          (execute_parallel g entry p max_branches).1
          (execute_sequential ops ch fl (λ i. t) extra g entry p)
  unfolding execute_parallel execute_sequential Sim
  start-Sim extra g entry p m single = elim (Bool-cases (elem entry g.entry_points)) [
    | inl on ↦
        rw (on, execute_sequential)
          (loop-Sim (suc (length g.nodes + extra)) 0 (max m 1) g entry p single)
    | inr off ↦ rw (off, execute_sequential) (λ room. (err _, start, refl))
  ]

  -- On a graph without edges for parallel branches, whenever `execute_sequential` returns, after
  -- however many rounds, and not because a queue has no room, the transitions of `execute_parallel` lead to the same answer, in a
  -- list, and to the same graph, where the clock stands still.
  pub execute_sequential-execute_parallel :
      (extra : ℕ) (g g' : FlowGraph M C) (entry : ℕ) (p : Packet) (max_branches : ℕ)
      (a : Result (Option Packet) ExecutionError)
      → None is_parallel g.edges
      → execute_sequential ops ch fl (λ i. t) extra g entry p ≡ returned g' a
      → NotFull a
      → (r : Result (List Exited) ExecutionError) × Reach
          (sur ops ch fl t)
          (execute_parallel g entry p max_branches).0
          (execute_parallel g entry p max_branches).1
          (record { graph = g'; permits = max max_branches 1 })
          (returns r)
        × Same a r
  unfolding execute_parallel Sim
  execute_sequential-execute_parallel extra g g' entry p m a single e room =
      (rw e at (start-Sim extra g entry p m single)) room
