-- ===== src/Graph/Queue.antt =====
-- crates/nyarix-graph/src/queue.rs. The three lanes of a node's input queue; a lane is a channel.
pub mod Order
pub mod Priority
use nyarix_runtime.Base.{
  ℕ, zero, suc, ◌+◌, ◌^◌, Bool, List, [], ◌∷◌, ◌++◌, Option, none, some, ◌==◌, if◌then◌else◌,
}
use nyarix_runtime.Packet.{Packet}
use nyarix_runtime.Packet.Tags.{Bitflags}
use nyarix_runtime.Graph.Channel.{Mpsc}

pub data Lane : Type 0 where
  control interactive bulk : Lane

-- `Tags::CONTROL` is bit 2 and `Tags::INTERACTIVE` bit 0.
unfoldable pub lane_for : Bitflags → Packet → Lane
lane_for fl p =
    if fl.contains p.tags (2 ^ 2)
    then control
    else (if fl.contains p.tags (2 ^ 0) then interactive else bulk)

-- Both halves of the queue.
pub record NodeQueue (C : Type 0) : Type 0 where
  pub control_lane : C
  pub interactive_lane : C
  pub bulk_lane : C

module _ {C : Type 0} (ch : Mpsc C Packet) where
  unfoldable pub node_queue : ℕ → NodeQueue C
  node_queue capacity = record {
    control_lane = ch.channel capacity;
    interactive_lane = ch.channel capacity;
    bulk_lane = ch.channel capacity;
  }

  unfoldable pub send_in : Lane → NodeQueue C → Packet → Option (NodeQueue C)
  send_in control q p = elim (ch.try_send q.control_lane p) [
    | none ↦ none
    | some c ↦ some (record q { control_lane = c })
  ]
  send_in interactive q p = elim (ch.try_send q.interactive_lane p) [
    | none ↦ none
    | some c ↦ some (record q { interactive_lane = c })
  ]
  send_in bulk q p = elim (ch.try_send q.bulk_lane p) [
    | none ↦ none
    | some c ↦ some (record q { bulk_lane = c })
  ]

  -- `none` is the error of a lane that is full or closed.
  unfoldable pub try_send : Bitflags → NodeQueue C → Packet → Option (NodeQueue C)
  unfolding send_in lane_for
  try_send fl q p = send_in (lane_for fl p) q p

  unfoldable pub try_recv_prioritized : NodeQueue C → Option (Packet × NodeQueue C)
  try_recv_prioritized q = elim (ch.try_recv q.control_lane) [
    | some (p, c) ↦ some (p, record q { control_lane = c })
    | none ↦ elim (ch.try_recv q.interactive_lane) [
      | some (p, c) ↦ some (p, record q { interactive_lane = c })
      | none ↦ elim (ch.try_recv q.bulk_lane) [
        | some (p, c) ↦ some (p, record q { bulk_lane = c })
        | none ↦ none
      ]
    ]
  ]

  unfoldable pub len : NodeQueue C → ℕ
  len q = ch.len q.control_lane + ch.len q.interactive_lane + ch.len q.bulk_lane

  unfoldable pub is_empty : NodeQueue C → Bool
  unfolding len
  is_empty q = len q == 0

  -- `while let Ok(packet) = lane.try_recv() { drained.push(packet) }` with fuel: what is drained, and
  -- the lane after it. No lane needs more rounds than it holds packets.
  drain_lane : ℕ → C → List Packet → List Packet × C
  drain_lane zero c drained = (drained, c)
  drain_lane (suc fuel) c drained = elim (ch.try_recv c) [
    | none ↦ (drained, c)
    | some (p, d) ↦ drain_lane fuel d (drained ++ p ∷ [])
  ]

  unfoldable pub drain : NodeQueue C → List Packet × NodeQueue C
  unfolding drain_lane
  drain q =
      let (d1, c) = drain_lane (ch.len q.control_lane) q.control_lane [] in
      let (d2, i) = drain_lane (ch.len q.interactive_lane) q.interactive_lane d1 in
      let (d3, b) = drain_lane (ch.len q.bulk_lane) q.bulk_lane d2 in
      (d3, record { control_lane = c; interactive_lane = i; bulk_lane = b })
