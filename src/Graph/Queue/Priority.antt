-- ===== src/Graph/Queue/Priority.antt =====
-- The order of service of the node queue, after any history of sends and receives.
use nyarix_runtime.Base.{
  ℕ, ◌≤◌, ◌<◌, ◌≡◌, refl, inl, inr, List, [], ◌∷◌, ◌++◌, Option, none, some, arith,
}
use nyarix_runtime.Packet.{Packet}
use nyarix_runtime.Packet.Tags.{Bitflags}
use nyarix_runtime.Graph.Channel.{Mpsc}
use nyarix_runtime.Graph.Queue.Order.{pending}
use nyarix_runtime.Graph.Queue.{
  Lane, control, interactive, bulk, lane_for, NodeQueue, node_queue, try_send, try_recv_prioritized,
  send_in,
}

-- The order in which the lanes are served.
abbrev pub rank : Lane → ℕ
rank control = 0
rank interactive = 1
rank bulk = 2

module _ (fl : Bitflags) where
  -- Every packet of the list goes by the lane `l`.
  abbrev pub InLane : Lane → List Packet → Type 0
  InLane l [] = Unit {0}
  InLane l (p ∷ ps) = (lane_for fl p ≡ l) × InLane l ps

  -- No packet of the list goes by a lane that is served before rank `n`.
  abbrev pub AtLeast : ℕ → List Packet → Type 0
  AtLeast n [] = Unit {0}
  AtLeast n (p ∷ ps) = (n ≤ rank (lane_for fl p)) × AtLeast n ps

  InLane-append :
      (l : Lane) (ps : List Packet) (p : Packet)
      → InLane l ps
      → lane_for fl p ≡ l
      → InLane l (ps ++ p ∷ [])
  InLane-append l [] p h e = (e, tt)
  InLane-append l (x ∷ ps) p h e = (h.0, InLane-append l ps p h.1 e)

  AtLeast-append :
      (n : ℕ) (ps qs : List Packet) → AtLeast n ps → AtLeast n qs → AtLeast n (ps ++ qs)
  AtLeast-append n [] qs h k = k
  AtLeast-append n (x ∷ ps) qs h k = (h.0, AtLeast-append n ps qs h.1 k)

  AtLeast-InLane : (n : ℕ) (l : Lane) (ps : List Packet) → n ≤ rank l → InLane l ps → AtLeast n ps
  AtLeast-InLane n l [] h k = tt
  AtLeast-InLane n l (x ∷ ps) h k = (rw (k.0) h, AtLeast-InLane n l ps h k.1)

module _ {C : Type 0} (ch : Mpsc C Packet) (fl : Bitflags) where
  pub record InLanes (q : NodeQueue C) : Type 0 where
    pub controls : InLane fl control (ch.items q.control_lane)
    pub interactives : InLane fl interactive (ch.items q.interactive_lane)
    pub bulks : InLane fl bulk (ch.items q.bulk_lane)

  sent-InLane :
      (l : Lane) (c d : C) (p : Packet)
      → ch.items d ≡ ch.items c ++ p ∷ []
      → lane_for fl p ≡ l
      → InLane fl l (ch.items c)
      → InLane fl l (ch.items d)
  sent-InLane l c d p e h k = rw e (InLane-append fl l (ch.items c) p k h)

  -- A call that fails leaves the queue as it was.
  abbrev pub after : NodeQueue C → Option (NodeQueue C) → NodeQueue C
  after q none = q
  after q (some d) = d

  send_in-InLanes :
      (l : Lane) (q : NodeQueue C) (p : Packet)
      → lane_for fl p ≡ l
      → InLanes q
      → InLanes (after q (send_in ch l q p))
  unfolding send_in
  send_in-InLanes control q p e v = elim (ch.try_send_cases q.control_lane p) [
    | inl (_, r) ↦ rw (r, send_in) v
    | inr (c, _, r, i, _, _) ↦
        rw (r, send_in)
          (record {
            controls = sent-InLane control q.control_lane c p i e v.controls;
            interactives = v.interactives;
            bulks = v.bulks;
          })
  ]
  send_in-InLanes interactive q p e v = elim (ch.try_send_cases q.interactive_lane p) [
    | inl (_, r) ↦ rw (r, send_in) v
    | inr (c, _, r, i, _, _) ↦
        rw (r, send_in)
          (record {
            controls = v.controls;
            interactives = sent-InLane interactive q.interactive_lane c p i e v.interactives;
            bulks = v.bulks;
          })
  ]
  send_in-InLanes bulk q p e v = elim (ch.try_send_cases q.bulk_lane p) [
    | inl (_, r) ↦ rw (r, send_in) v
    | inr (c, _, r, i, _, _) ↦
        rw (r, send_in)
          (record {
            controls = v.controls;
            interactives = v.interactives;
            bulks = sent-InLane bulk q.bulk_lane c p i e v.bulks;
          })
  ]

  -- What a call of `try_recv_prioritized` may return from a queue whose lanes are kept apart.
  abbrev pub Serves : Option (Packet × NodeQueue C) → Type 0
  Serves none = Unit {0}
  Serves (some (p, d)) = InLanes d × AtLeast fl (rank (lane_for fl p)) (pending ch d)

  AtLeast-nil : (n : ℕ) (ps : List Packet) → ps ≡ [] → AtLeast fl n ps
  AtLeast-nil n ps e = rw e tt

  -- What is left behind a packet of lane `l` goes by that lane or a later one.
  serves :
      (l : Lane) (p : Packet) (d : NodeQueue C)
      → lane_for fl p ≡ l
      → InLanes d
      → AtLeast fl (rank l) (ch.items d.control_lane)
      → AtLeast fl (rank l) (ch.items d.interactive_lane)
      → Serves (some (p, d))
  serves l p d now v a b = (
    v,
    rw now (
        AtLeast-append fl _ _ _ a
          (AtLeast-append fl _ _ _ b (AtLeast-InLane fl (rank l) bulk _ (rank-le-bulk l) v.bulks))),
  )
    where
      rank-le-bulk : (m : Lane) → rank m ≤ rank bulk
      rank-le-bulk control = omega arith
      rank-le-bulk interactive = omega arith
      rank-le-bulk bulk = omega arith

  try_recv-Serves : (q : NodeQueue C) → InLanes q → Serves (try_recv_prioritized ch q)
  unfolding try_recv_prioritized
  try_recv-Serves q v = elim (ch.try_recv_cases q.control_lane) [
    | inr (p, c, e, r, _, _) ↦
        let (now, later) = rw e at v.controls in
        rw (r, try_recv_prioritized)
          (serves control p (record q { control_lane = c }) now
            (record { controls = later; interactives = v.interactives; bulks = v.bulks })
            (AtLeast-InLane fl 0 control _ (omega arith) later)
            (AtLeast-InLane fl 0 interactive _ (omega arith) v.interactives))
    | inl (e, r) ↦ elim (ch.try_recv_cases q.interactive_lane) [
      | inr (p, i, e', r', _, _) ↦
          let (now, later) = rw e' at v.interactives in
          rw (r, try_recv_prioritized, r')
            (serves interactive p (record q { interactive_lane = i }) now
              (record { controls = v.controls; interactives = later; bulks = v.bulks })
              (AtLeast-nil 1 _ e) (AtLeast-InLane fl 1 interactive _ (omega arith) later))
      | inl (e', r') ↦ elim (ch.try_recv_cases q.bulk_lane) [
        | inr (p, b, e'', r'', _, _) ↦
            let (now, later) = rw e'' at v.bulks in
            rw (r, try_recv_prioritized, r', r'')
              (serves bulk p (record q { bulk_lane = b }) now
                (record { controls = v.controls; interactives = v.interactives; bulks = later })
                (AtLeast-nil 2 _ e) (AtLeast-nil 2 _ e'))
        | inl (e'', r'') ↦ rw (r, try_recv_prioritized, r', r'') tt
      ]
    ]
  ]

  -- The queue after a history of calls: `some p` sends `p`, `none` receives.
  abbrev after_recv : NodeQueue C → Option (Packet × NodeQueue C) → NodeQueue C
  after_recv q none = q
  after_recv q (some (p, d)) = d

  unfoldable pub run : NodeQueue C → List (Option Packet) → NodeQueue C
  run q [] = q
  run q (some p ∷ cs) = run (after q (try_send ch fl q p)) cs
  run q (none ∷ cs) = run (after_recv q (try_recv_prioritized ch q)) cs

  after_recv-InLanes :
      (q : NodeQueue C) (r : Option (Packet × NodeQueue C))
      → InLanes q
      → Serves r
      → InLanes (after_recv q r)
  after_recv-InLanes q none v s = v
  after_recv-InLanes q (some (p, d)) v s = s.0

  run-InLanes : (q : NodeQueue C) (cs : List (Option Packet)) → InLanes q → InLanes (run q cs)
  unfolding run try_send
  run-InLanes q [] v = v
  run-InLanes q (some p ∷ cs) v =
      run-InLanes (after q (try_send ch fl q p)) cs (send_in-InLanes (lane_for fl p) q p refl v)
  run-InLanes q (none ∷ cs) v =
      run-InLanes (after_recv q (try_recv_prioritized ch q)) cs
        (after_recv-InLanes q _ v (try_recv-Serves q v))

  node_queue-InLanes : (capacity : ℕ) → 0 < capacity → InLanes (node_queue ch capacity)
  unfolding node_queue
  node_queue-InLanes capacity h =
      let e = (ch.channel_new capacity h).0 in
      record { controls = rw e tt; interactives = rw e tt; bulks = rw e tt }

  -- After any history of sends and receives on a new queue with room in its lanes, a packet that is
  -- received goes by a lane no later than that of any packet still pending behind it: control
  -- before interactive before the rest.
  pub recv_serves_first :
      (capacity : ℕ) (cs : List (Option Packet)) (p : Packet) (d : NodeQueue C)
      → 0 < capacity
      → try_recv_prioritized ch (run (node_queue ch capacity) cs) ≡ some (p, d)
      → AtLeast fl (rank (lane_for fl p)) (pending ch d)
  recv_serves_first capacity cs p d h e =
      (rw e at (
        try_recv-Serves (run (node_queue ch capacity) cs)
          (run-InLanes _ cs (node_queue-InLanes capacity h)))).1
