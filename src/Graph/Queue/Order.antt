-- ===== src/Graph/Queue/Order.antt =====
-- The node queue seen as one list of pending packets: control, then interactive, then bulk.
use mathlib.Core.List.{append-nil, append_assoc}
use nyarix_runtime.Base.{
  ℕ, zero, suc, ◌≤◌, ◌≡◌, sym, ap, ◌∙◌, ◌⊎◌, inl, inr, List, [], ◌∷◌, ◌++◌, none, some, arith,
  length, length-append,
}
use nyarix_runtime.Packet.{Packet}
use nyarix_runtime.Graph.Channel.{Mpsc}
use nyarix_runtime.Graph.Queue.{NodeQueue, try_recv_prioritized, drain_lane, drain, len}

module _ {C : Type 0} (ch : Mpsc C Packet) where
  abbrev pub pending : NodeQueue C → List Packet
  pending q = ch.items q.control_lane ++ (ch.items q.interactive_lane ++ ch.items q.bulk_lane)

  -- Receiving takes the first pending packet, and fails exactly if there is none.
  pub try_recv-pending :
      (q : NodeQueue C)
      → ((pending q ≡ []) × (try_recv_prioritized ch q ≡ none))
        ⊎ ((p : Packet) × (d : NodeQueue C) × (pending q ≡ p ∷ pending d)
            × (try_recv_prioritized ch q ≡ some (p, d)))
  unfolding try_recv_prioritized
  try_recv-pending q = elim (ch.try_recv_cases q.control_lane) [
    | inr (p, c, e, r, _, _) ↦ inr (p, record q { control_lane = c }, rw e, ground arith)
    | inl (e, r) ↦ elim (ch.try_recv_cases q.interactive_lane) [
      | inr (p, i, e', r', _, _) ↦
          inr (p, record q { interactive_lane = i }, rw (e, e'), ground arith)
      | inl (e', r') ↦ elim (ch.try_recv_cases q.bulk_lane) [
        | inr (p, b, e'', r'', _, _) ↦
            inr (p, record q { bulk_lane = b }, rw (e, e', e''), ground arith)
        | inl (e'', r'') ↦ inl (rw (e, e', e''), ground arith)
      ]
    ]
  ]

  drain_lane_lem :
      (fuel : ℕ) (c : C) (drained : List Packet)
      → length (ch.items c) ≤ fuel
      → ((drain_lane ch fuel c drained).0 ≡ drained ++ ch.items c)
        × (ch.items (drain_lane ch fuel c drained).1 ≡ [])
  unfolding drain_lane
  drain_lane_lem zero c drained h = elim (ch.try_recv_cases c) [
    | inl (e, r) ↦ (rw e (sym (append-nil drained)), e)
    | inr (p, d, e, r, _, _) ↦ absurd (omega (arith, ap length e))
  ]
  drain_lane_lem (suc fuel) c drained h = elim (ch.try_recv_cases c) [
    | inl (e, r) ↦ (rw (r, drain_lane, e) (sym (append-nil drained)), rw (r, drain_lane) e)
    | inr (p, d, e, r, _, _) ↦
        let (all, left) = drain_lane_lem fuel d (drained ++ p ∷ []) (omega (arith, ap length e)) in
        (
          rw (r, drain_lane, e) (all ∙ append_assoc drained (p ∷ []) (ch.items d)),
          rw (r, drain_lane) left,
        )
  ]

  drain_lane_len :
      (c : C) (drained : List Packet)
      → ((drain_lane ch (ch.len c) c drained).0 ≡ drained ++ ch.items c)
        × (ch.items (drain_lane ch (ch.len c) c drained).1 ≡ [])
  drain_lane_len c drained = drain_lane_lem (ch.len c) c drained (omega (arith, ch.len-items c))

  -- Draining takes every pending packet, in the order in which they would be received one by one,
  -- and leaves nothing pending; there are as many of them as the length of the queue said.
  pub drain-pending :
      (q : NodeQueue C)
      → ((drain ch q).0 ≡ pending q)
        × (pending (drain ch q).1 ≡ [])
        × (len ch q ≡ length (drain ch q).0)
  unfolding drain len
  drain-pending q =
      let first = drain_lane_len q.control_lane [] in
      let second = drain_lane_len q.interactive_lane (ch.items q.control_lane) in
      let third =
        drain_lane_len q.bulk_lane (ch.items q.control_lane ++ ch.items q.interactive_lane) in
      let taken : (drain ch q).0 ≡ pending q =
        rw (first.0, second.0, third.0)
          (append_assoc (ch.items q.control_lane) (ch.items q.interactive_lane)
            (ch.items q.bulk_lane)) in
      (
        taken,
        rw (first.0, second.0, third.1, second.1, first.1),
        rw taken (
            omega (
              arith,
              ch.len-items q.control_lane,
              ch.len-items q.interactive_lane,
              ch.len-items q.bulk_lane,
              length-append (ch.items q.control_lane)
                  (ch.items q.interactive_lane ++ ch.items q.bulk_lane),
              length-append (ch.items q.interactive_lane) (ch.items q.bulk_lane),
            )),
      )
