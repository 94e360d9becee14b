-- ===== src/Tests/GraphTests.antt =====
-- Queues and graphs at concrete inputs.
use nyarix_runtime.Base.{refl, arith, List, [], ◌∷◌, Option, some}
use nyarix_runtime.Packet.{Packet}
use nyarix_runtime.Packet.Tags.Native.{native_flags}
use nyarix_runtime.Graph.Queue.{NodeQueue, node_queue, try_recv_prioritized, drain, len, lane_for}
use nyarix_runtime.Graph.Queue.Order.{pending}
use nyarix_runtime.Graph.Queue.Priority.{rank, AtLeast, run, recv_serves_first}
use nyarix_runtime.Graph.Flow.Sync.{InSync}
use nyarix_runtime.Graph.Flow.Changes.{run-new-InSync}
use nyarix_runtime.Graph.Search.{find_path}
use nyarix_runtime.Graph.Search.Paths.{Answers, find_path-Answers}
use nyarix_runtime.Graph.Cycle.{detect_cycle}
use nyarix_runtime.Graph.Cycle.Detection.{Verdict, detect_cycle-Verdict}
use nyarix_runtime.Tests.Fixtures.{
  packet, control_packet, Channel, channels, relays, row, row_changes, ring, ring_changes,
}

-- A queue that was sent a packet of the last lane and then one of the first.
abbrev history : List (Option Packet)
history = some (packet 1) ∷ some (control_packet 2) ∷ []

abbrev waiting : NodeQueue Channel
waiting = run channels native_flags (node_queue channels 4) history

abbrev left : NodeQueue Channel
left = run channels native_flags (node_queue channels 4) (some (packet 1) ∷ [])

recv_serves_first_example :
    AtLeast native_flags (rank (lane_for native_flags (control_packet 2))) (pending channels left)
unfolding run node_queue try_recv_prioritized nyarix_runtime.Graph.Queue.try_send
    nyarix_runtime.Packet.tag nyarix_runtime.Packet.new
recv_serves_first_example =
    recv_serves_first channels native_flags 4 history (control_packet 2) left (omega arith) refl

run-new-InSync_example : InSync row
run-new-InSync_example = run-new-InSync relays channels row_changes

find_path-Answers_example : Answers row 1 3 (find_path row 1 3)
find_path-Answers_example = find_path-Answers row 1 3 (run-new-InSync relays channels row_changes)

detect_cycle-Verdict_example : Verdict ring (detect_cycle ring)
detect_cycle-Verdict_example =
    detect_cycle-Verdict ring (run-new-InSync relays channels ring_changes)
