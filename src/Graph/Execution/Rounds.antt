-- ===== src/Graph/Execution/Rounds.antt =====
-- The walk of a packet, and the number of rounds for which it is followed.
use nyarix_runtime.Base.{
  ℕ, zero, suc, ◌+◌, ◌≤◌, ◌≡◌, inl, inr, Option, Result, arith, length, elem, Bool-cases,
  Option-cases,
}
use nyarix_runtime.Base.Maps.{lookup, insert}
use nyarix_runtime.Packet.{Packet}
use nyarix_runtime.Packet.Tags.{Bitflags}
use nyarix_runtime.Graph.Channel.{Mpsc}
use nyarix_runtime.Graph.Node.{Modules}
use nyarix_runtime.Graph.Flow.{FlowGraph}
use nyarix_runtime.Graph.Execution.{
  ExecutionError, returned, hop, next_edge, execute_loop, execute_sequential,
}
use nyarix_runtime.Graph.Execution.Walk.{Hopped-cases}

module _ {M C : Type 0} (ops : Modules M) (ch : Mpsc C Packet) (fl : Bitflags) (now : ℕ → ℕ) where
  -- A loop that returned within `f` rounds does the same when it is followed for more.
  execute_loop-more :
      (f k i : ℕ) (g : FlowGraph M C) (x : ℕ) (p : Packet) (g' : FlowGraph M C)
      (a : Result (Option Packet) ExecutionError)
      → f ≤ k
      → execute_loop ops ch fl now f i g x p ≡ returned g' a
      → execute_loop ops ch fl now k i g x p ≡ returned g' a
  unfolding execute_loop
  execute_loop-more zero k i g x p g' a le h = absurd cc
  execute_loop-more (suc f) zero i g x p g' a le h = absurd (omega (arith, le))
  execute_loop-more (suc f) (suc k) i g x p g' a le h = elim (Option-cases (lookup x g.nodes)) [
    | inl e ↦ rw (e, execute_loop) (rw (e, execute_loop) at h)
    | inr (node, e) ↦ elim (Hopped-cases (hop ops ch fl (now i) x node p)) [
      | inl (n, bad, r) ↦ rw (e, execute_loop, r) (rw (e, execute_loop, r) at h)
      | inr (inl (n, r)) ↦ rw (e, execute_loop, r) (rw (e, execute_loop, r) at h)
      | inr (inr (inr r)) ↦ rw (e, execute_loop, r) (rw (e, execute_loop, r) at h)
      | inr (inr (inl (n, q, r))) ↦ elim (Bool-cases (elem x g.exit_points)) [
        | inl on ↦ rw (e, execute_loop, r, on) (rw (e, execute_loop, r, on) at h)
        | inr inner ↦ elim (Option-cases (next_edge fl g x q)) [
          | inl dead ↦
              rw (e, execute_loop, r, inner, dead) (rw (e, execute_loop, r, inner, dead) at h)
          | inr (edge, go) ↦
              rw (e, execute_loop, r, inner, go)
                (execute_loop-more f k (suc i) (record g { nodes = insert x n g.nodes }) edge.to q
                  g' a (omega arith) (rw (e, execute_loop, r, inner, go) at h))
        ]
      ]
    ]
  ]

  -- A walk that returned returns the same when it is followed for more rounds.
  execute_sequential-more :
      (extra more : ℕ) (g : FlowGraph M C) (entry : ℕ) (p : Packet) (g' : FlowGraph M C)
      (a : Result (Option Packet) ExecutionError)
      → extra ≤ more
      → execute_sequential ops ch fl now extra g entry p ≡ returned g' a
      → execute_sequential ops ch fl now more g entry p ≡ returned g' a
  unfolding execute_sequential
  execute_sequential-more extra more g entry p g' a le h =
      elim (Bool-cases (elem entry g.entry_points)) [
        | inr off ↦ rw (off, execute_sequential) (rw (off, execute_sequential) at h)
        | inl on ↦
            rw (on, execute_sequential)
              (execute_loop-more (suc (length g.nodes + extra)) (suc (length g.nodes + more)) 0 g
                entry p g' a (omega arith) (rw (on, execute_sequential) at h))
      ]
