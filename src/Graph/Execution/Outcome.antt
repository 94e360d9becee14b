-- ===== src/Graph/Execution/Outcome.antt =====
-- The answers of `execute_sequential` on a graph that `validate` accepts.
use nyarix_runtime.Base.{
  ℕ, suc, ◌+◌, ◌≡◌, refl, inl, inr, true, [], ◌∷◌, some, ok, arith, length, elem, Bool-cases,
  Option-cases,
}
use nyarix_runtime.Base.Maps.{lookup, contains_key, keys, length-keys}
use nyarix_runtime.Base.Walks.{stop, here, unseen_le}
use nyarix_runtime.Packet.{Packet}
use nyarix_runtime.Packet.Tags.{Bitflags}
use nyarix_runtime.Graph.Channel.{Mpsc}
use nyarix_runtime.Graph.Node.{Modules}
use nyarix_runtime.Graph.Flow.{FlowGraph}
use nyarix_runtime.Graph.Flow.Sync.{InSync}
use nyarix_runtime.Graph.Validate.{validate}
use nyarix_runtime.Graph.Validate.Report.{Valid, Acyclic, validate-Report}
use nyarix_runtime.Graph.Execution.Walk.{WalkOk, Walking, SameShape-refl, execute_loop-WalkOk}
use nyarix_runtime.Graph.Execution.{execute_loop, execute_sequential}

module _ {M C : Type 0} (ops : Modules M) (ch : Mpsc C Packet) (fl : Bitflags) (now : ℕ → ℕ) where
  -- The same as below, where only the absence of cycles is known of the graph.
  pub execute_sequential-Acyclic :
      (extra : ℕ) (g : FlowGraph M C) (entry : ℕ) (p : Packet)
      → InSync g
      → g.allowed_feedback_edges ≡ []
      → Acyclic g
      → WalkOk g entry (execute_sequential ops ch fl now extra g entry p)
  unfolding execute_sequential
  execute_sequential-Acyclic extra g entry p sync strict acyclic =
      elim (Bool-cases (elem entry g.entry_points)) [
        | inr off ↦ rw (off, execute_sequential) (SameShape-refl g, refl, rw off refl)
        | inl on ↦ elim (Option-cases (lookup entry g.nodes)) [
          | inl gone ↦
              rw (on, execute_sequential, execute_loop, gone)
                (SameShape-refl g, refl, rw (on, gone) refl)
          | inr (n, e) ↦
              let known : contains_key entry g.nodes ≡ true = rw e refl in
              let walking : Walking g entry (suc (length g.nodes + extra)) g (entry ∷ []) entry =
                record {
                  synced = sync;
                  strict = strict;
                  acyclic = acyclic;
                  same = SameShape-refl g;
                  route = stop entry;
                  reach = here;
                  known = known;
                  enough = omega (
                    arith,
                    unseen_le (λ k. elem k (entry ∷ [])) (keys g.nodes),
                    length-keys g.nodes,
                  );
                } in
              rw (on, execute_sequential)
                (execute_loop-WalkOk ops ch fl now (suc (length g.nodes + extra)) 0 g g entry entry
                  (entry ∷ []) p walking)
        ]
      ]

  -- On a graph whose adjacency index is in step with its edges, that allows no feedback edge and that
  -- `validate` accepts, `execute_sequential` returns, be it followed for no more rounds than one more
  -- than the graph has nodes or for further ones, without panic, and leaves the topology, the entry and exit points and the set of nodes as they
  -- were. If it delivers a packet, a walk leads from the entry to an exit point; if it reports a
  -- missing node, this is the entry itself, which is no entry point or no node; if it reports a node
  -- without an accepting edge, a walk leads there from the entry and it is no exit point. Any other
  -- error is that of a module or a full queue.
  pub execute_sequential-WalkOk :
      (extra : ℕ) (g : FlowGraph M C) (entry : ℕ) (p : Packet)
      → InSync g
      → g.allowed_feedback_edges ≡ []
      → validate g ≡ some (ok tt)
      → WalkOk g entry (execute_sequential ops ch fl now extra g entry p)
  execute_sequential-WalkOk extra g entry p sync strict valid =
      let report : Valid g = rw valid at (validate-Report g sync) in
      execute_sequential-Acyclic extra g entry p sync strict report.acyclic
