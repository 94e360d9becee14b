-- ===== src/Graph/Edge.antt =====
-- crates/nyarix-graph/src/edge.rs. `C` is the edge's channel.
use nyarix_runtime.Base.{ℕ, ◌+◌, ◌%◌, ◌^◌, Bool, true, false, Option, none, some}
use nyarix_runtime.Packet.{Packet}
use nyarix_runtime.Packet.Tags.{Bitflags}
use nyarix_runtime.Graph.Channel.{Mpsc}
use nyarix_runtime.Graph.Condition.{Condition, evaluate}

pub data EdgeType : Type 0 where
  sequential conditional parallel fallback : EdgeType

pub record Edge (C : Type 0) : Type 0 where
  pub from : ℕ
  pub to : ℕ
  pub edge_type : EdgeType
  pub condition : Option Condition
  pub queue : C
  pub dropped : ℕ

module _ {C : Type 0} (ch : Mpsc C Packet) where
  -- `Edge::new`, where the caller keeps the receiver.
  unfoldable pub new : ℕ → ℕ → EdgeType → Option Condition → ℕ → Edge C
  new from to edge_type condition capacity = record {
    from = from;
    to = to;
    edge_type = edge_type;
    condition = condition;
    queue = ch.channel capacity;
    dropped = 0;
  }

  -- `let (edge, _rx) = Edge::new(...)`: the receiver is dropped at the end of the caller.
  unfoldable pub new_closed : ℕ → ℕ → EdgeType → Option Condition → ℕ → Edge C
  new_closed from to edge_type condition capacity = record {
    from = from;
    to = to;
    edge_type = edge_type;
    condition = condition;
    queue = ch.close (ch.channel capacity);
    dropped = 0;
  }

  -- `none` is the error of a queue that is full or closed.
  unfoldable pub try_send : Edge C → Packet → Option (Edge C)
  try_send e p = elim (ch.try_send e.queue p) [
    | none ↦ none
    | some c ↦ some (record e { queue = c })
  ]

  -- The 64-bit counter of drops wraps.
  unfoldable pub try_send_or_drop : Edge C → Packet → Edge C × Bool
  try_send_or_drop e p = elim (ch.try_send e.queue p) [
    | some c ↦ (record e { queue = c }, true)
    | none ↦ (record e { dropped = (e.dropped + 1) % 2 ^ 64 }, false)
  ]

-- An edge with no condition accepts every packet.
unfoldable pub accepts : {C : Type 0} → Bitflags → Edge C → Packet → Bool
accepts fl e p = elim e.condition [ none ↦ true | some c ↦ evaluate fl c p ]
