-- ===== src/Graph/Execution/Hop.antt =====
-- One hop: it never panics, and the only error of the graph that it reports is a full queue.
use nyarix_runtime.Base.{
  ℕ, ◌+◌, ◌≡◌, refl, inl, inr, [], ◌∷◌, ◌++◌, Option, none, some, Result, ok, err, arith, length,
  length-append, ap, Result-cases, Option-cases,
}
use nyarix_runtime.Errors.{ModuleError, build_failed, queue_full}
use nyarix_runtime.Packet.{Packet}
use nyarix_runtime.Packet.Tags.{Bitflags}
use nyarix_runtime.Graph.Channel.{Mpsc}
use nyarix_runtime.Graph.Queue.{
  Lane, control, interactive, bulk, lane_for, NodeQueue, send_in, try_send, try_recv_prioritized,
}
use nyarix_runtime.Graph.Queue.Order.{pending, try_recv-pending}
use nyarix_runtime.Graph.Node.{GraphNode, Modules}
use nyarix_runtime.Graph.Execution.{
  ExecutionError, module_failed, graph_failed, Hopped, hopped, panicked, of_outcome,
  check_payload_limit, record_and_check_processing_time, after_process, enqueue_and_process, hop,
}

module _ {C : Type 0} (ch : Mpsc C Packet) where
  -- A queue from which a packet can be received.
  abbrev pub Ready : NodeQueue C → Type 0
  Ready q = (p : Packet) × (d : NodeQueue C) × (try_recv_prioritized ch q ≡ some (p, d))

  abbrev pub Sent : Option (NodeQueue C) → Type 0
  Sent none = Unit {0}
  Sent (some q) = Ready q

  pending-Ready : (q : NodeQueue C) → ¬ (length (pending ch q) ≡ 0) → Ready q
  pending-Ready q h = elim (try_recv-pending ch q) [
    | inl (e, r) ↦ absurd (h (rw e refl))
    | inr (p, d, e, r) ↦ (p, d, r)
  ]

  length-pending :
      (q : NodeQueue C)
      → length (pending ch q)
        ≡ length (ch.items q.control_lane)
          + (length (ch.items q.interactive_lane) + length (ch.items q.bulk_lane))
  length-pending q = omega (
    arith,
    length-append (ch.items q.control_lane) (ch.items q.interactive_lane ++ ch.items q.bulk_lane),
    length-append (ch.items q.interactive_lane) (ch.items q.bulk_lane),
  )

  send_in-Sent : (l : Lane) (q : NodeQueue C) (p : Packet) → Sent (send_in ch l q p)
  unfolding send_in
  send_in-Sent control q p = elim (ch.try_send_cases q.control_lane p) [
    | inl (_, r) ↦ rw (r, send_in) tt
    | inr (c, _, r, i, _, _) ↦
        rw (r, send_in)
          (pending-Ready (record q { control_lane = c })
            (omega (
              arith,
              length-pending (record q { control_lane = c }),
              ap length i,
              length-append (ch.items q.control_lane) (p ∷ []),
            )))
  ]
  send_in-Sent interactive q p = elim (ch.try_send_cases q.interactive_lane p) [
    | inl (_, r) ↦ rw (r, send_in) tt
    | inr (c, _, r, i, _, _) ↦
        rw (r, send_in)
          (pending-Ready (record q { interactive_lane = c })
            (omega (
              arith,
              length-pending (record q { interactive_lane = c }),
              ap length i,
              length-append (ch.items q.interactive_lane) (p ∷ []),
            )))
  ]
  send_in-Sent bulk q p = elim (ch.try_send_cases q.bulk_lane p) [
    | inl (_, r) ↦ rw (r, send_in) tt
    | inr (c, _, r, i, _, _) ↦
        rw (r, send_in)
          (pending-Ready (record q { bulk_lane = c })
            (omega (
              arith,
              length-pending (record q { bulk_lane = c }),
              ap length i,
              length-append (ch.items q.bulk_lane) (p ∷ []),
            )))
  ]

-- No error of the graph but a full queue.
abbrev pub Mild : Result (Option Packet) ExecutionError → Type 0
Mild (ok p) = Unit {0}
Mild (err (module_failed e)) = Unit {0}
Mild (err (graph_failed (build_failed (queue_full id)))) = Unit {0}
Mild (err (graph_failed _)) = ⊥

module _ {M C : Type 0} where
  abbrev pub HopOk : Hopped M C → Type 0
  HopOk (hopped n r) = Mild r
  HopOk panicked = ⊥

of_outcome-Mild : (r : Result (Option Packet) ModuleError) → Mild (of_outcome r)
of_outcome-Mild (ok p) = tt
of_outcome-Mild (err e) = tt

module _ {M C : Type 0} (ops : Modules M) where
  check_payload_limit-Mild :
      (n : GraphNode M C) (p : Packet) (e : ExecutionError)
      → check_payload_limit ops n p ≡ err e
      → Mild (err e)
  unfolding check_payload_limit
  check_payload_limit-Mild n p (module_failed e) h = tt
  check_payload_limit-Mild n p (graph_failed e) h = ground arith

  time-Mild :
      (n : GraphNode M C) (t : ℕ) (e : ExecutionError)
      → record_and_check_processing_time ops n t ≡ err e
      → Mild (err e)
  unfolding record_and_check_processing_time
  time-Mild n t (module_failed e) h = tt
  time-Mild n t (graph_failed e) h = ground arith

  after_process-HopOk :
      (t : ℕ) (r : GraphNode M C × Result (Option Packet) ModuleError)
      → HopOk (after_process ops t r)
  unfolding after_process
  after_process-HopOk t (n, outcome) =
      elim (Result-cases (record_and_check_processing_time ops n t)) [
        | inl (u, e) ↦ rw (e, after_process) (of_outcome-Mild outcome)
        | inr (x, e) ↦ rw (e, after_process) (time-Mild n t x e)
      ]

  enqueue_and_process-HopOk :
      (ch : Mpsc C Packet) (fl : Bitflags) (n : GraphNode M C) (p : Packet)
      → HopOk (enqueue_and_process ops ch fl n p)
  unfolding enqueue_and_process try_send
  enqueue_and_process-HopOk ch fl n p =
      let sent = send_in-Sent ch (lane_for fl p) n.queue p in
      elim (Option-cases (try_send ch fl n.queue p)) [
        | inl e ↦ rw (e, enqueue_and_process) tt
        | inr (q, e) ↦
            let (p', d, r) : Ready ch q = rw e at sent in
            rw (e, enqueue_and_process, r) (after_process-HopOk _ _)
      ]

  pub hop-HopOk :
      (ch : Mpsc C Packet) (fl : Bitflags) (now current : ℕ) (n : GraphNode M C) (p : Packet)
      → HopOk (hop ops ch fl now current n p)
  unfolding hop
  hop-HopOk ch fl now current n p = elim (Result-cases (check_payload_limit ops n p)) [
    | inl (u, e) ↦ rw (e, hop) (enqueue_and_process-HopOk ch fl n _)
    | inr (x, e) ↦ rw (e, hop) (check_payload_limit-Mild n p x e)
  ]
