-- ===== src/Runtime/Priority/Queue.antt =====
-- crates/nyarix-runtime/src/priority.rs: the queue of five lanes, which are served in the order of
-- TaskPriority; a lane is a channel.
use nyarix_runtime.Base.{
  ℕ, zero, suc, Bool, true, List, [], ◌∷◌, ◌++◌, Option, none, some, if◌then◌else◌,
}
use nyarix_runtime.Graph.Channel.{Mpsc}
use nyarix_runtime.Runtime.Priority.{TaskPriority, realtime, high, normal, low, background}

-- Both halves of the queue. Every sender holds all of the lanes, so that they lose it together:
-- `senders` is whether one is left.
pub record PriorityQueue (C : Type 0) : Type 0 where
  pub lanes : List C
  pub senders : Bool

-- What a future gives when it is polled.
pub data Poll (A : Type 0) : Type 0 where
  pending : Poll A
  ready : A → Poll A

-- `priority as usize`.
unfoldable pub as_usize : TaskPriority → ℕ
as_usize realtime = 0
as_usize high = 1
as_usize normal = 2
as_usize low = 3
as_usize background = 4

module _ {C A : Type 0} (ch : Mpsc C A) where
  unfoldable pub priority_queue : ℕ → PriorityQueue C
  priority_queue capacity = record {
    lanes =
        ch.channel capacity
        ∷ ch.channel capacity
        ∷ ch.channel capacity
        ∷ ch.channel capacity
        ∷ ch.channel capacity
        ∷ [];
    senders = true;
  }

  -- `self.lanes[index].try_send(item)`; there are five lanes, so the index is always in range.
  unfoldable pub send_at : ℕ → List C → A → Option (List C)
  send_at n [] a = none
  send_at zero (c ∷ cs) a = elim (ch.try_send c a) [ none ↦ none | some d ↦ some (d ∷ cs) ]
  send_at (suc n) (c ∷ cs) a = elim (send_at n cs a) [ none ↦ none | some ds ↦ some (c ∷ ds) ]

  -- `none` is the error of a lane that is full or closed.
  unfoldable pub try_send : PriorityQueue C → TaskPriority → A → Option (PriorityQueue C)
  unfolding send_at as_usize
  try_send q priority a = elim (send_at (as_usize priority) q.lanes a) [
    | none ↦ none
    | some cs ↦ some (record q { lanes = cs })
  ]

  -- The biased `select!` over the lanes: the first of them that is ready gives the result. An empty
  -- lane is ready, with `None`, if no sender is left.
  unfoldable pub recv_lanes : Bool → List C → Poll (Option A) × List C
  recv_lanes senders [] = (pending, [])
  recv_lanes senders (c ∷ cs) = elim (ch.try_recv c) [
    | some (a, d) ↦ (ready (some a), d ∷ cs)
    | none ↦
        let (item, ds) = recv_lanes senders cs in
        if senders then (item, c ∷ ds) else (ready none, c ∷ cs)
  ]

  -- One poll of `recv`.
  unfoldable pub recv : PriorityQueue C → Poll (Option A) × PriorityQueue C
  unfolding recv_lanes
  recv q = let (item, cs) = recv_lanes q.senders q.lanes in (item, record q { lanes = cs })

  -- `while let Ok(item) = lane.try_recv()` with fuel: what is drained, and the lane after it. No lane
  -- needs more rounds than it holds items.
  unfoldable pub drain_lane : ℕ → C → List A → List A × C
  drain_lane zero c drained = (drained, c)
  drain_lane (suc fuel) c drained = elim (ch.try_recv c) [
    | none ↦ (drained, c)
    | some (a, d) ↦ drain_lane fuel d (drained ++ a ∷ [])
  ]

  unfoldable pub drain_lanes : List C → List A → List A × List C
  unfolding drain_lane
  drain_lanes [] drained = (drained, [])
  drain_lanes (c ∷ cs) drained =
      let (some_drained, d) = drain_lane (ch.len c) c drained in
      let (all_drained, ds) = drain_lanes cs some_drained in (all_drained, d ∷ ds)

  unfoldable pub drain : PriorityQueue C → List A × PriorityQueue C
  unfolding drain_lanes
  drain q = let (drained, cs) = drain_lanes q.lanes [] in (drained, record q { lanes = cs })
