-- ===== src/Tests/Fixtures.antt =====
-- Packets, modules and graphs for the tests.
use Prim.Native.Nat.{bit_and}
use nyarix_runtime.ModuleApi.RateLimiter
use nyarix_runtime.Base.{
  ℕ, ◌+◌, ◌-◌, ◌*◌, ◌/◌, ◌^◌, min, leb, arith, List, [], ◌∷◌, true, false, none, some, ok,
}
use nyarix_runtime.Packet.{Packet}
use nyarix_runtime.Packet
use nyarix_runtime.Packet.Tags.{control}
use nyarix_runtime.Packet.Tags.Native.{native_flags, bit-bit_and}
use nyarix_runtime.ModuleApi.Capability.{MaskOps}
use nyarix_runtime.Graph.Channel.{Mpsc, Buffer, buffers}
use nyarix_runtime.Graph.Edge.{Edge, sequential}
use nyarix_runtime.Graph.Edge
use nyarix_runtime.Graph.Node.{GraphNode, Modules, NodeType, source, transformer, sink}
use nyarix_runtime.Graph.Node
use nyarix_runtime.Graph.Flow.{FlowGraph, add_node, connect_all}
use nyarix_runtime.Graph.Flow
use nyarix_runtime.Graph.Flow.Changes.{Change, adds, connects, run}

-- A packet with an identifier and a payload of one byte.
abbrev pub packet : ℕ → Packet
packet id = Packet.new id (7 ∷ []) 1 2 3 0

abbrev pub control_packet : ℕ → Packet
control_packet id = Packet.tag native_flags (packet id) control

abbrev pub masks : MaskOps
masks = record { flags = native_flags; both = bit_and; bit-both = bit-bit_and }

-- Exact numbers, in units of 10 ^ -9, in the place of those of `f64`.
abbrev pub fixed : RateLimiter.Floats
fixed = record {
  of_u32 = λ n. n * 10 ^ 9;
  as_secs = λ ns. ns;
  add = λ x y. x + y;
  sub = λ x y. x - y;
  mul = λ x y. x * y / 10 ^ 9;
  minimum = min;
  at_most = leb;
  minimum-right = λ x n. ground arith;
  minimum-left = λ x y z h. ground arith;
  add-nothing = λ x y r h. ground arith;
  sub-one = λ x n small h. ground arith;
  at_most-zero = λ x h. ground arith;
  add-nothing_exact = λ n r small. ground arith;
  minimum_exact = λ m n le small. ground arith;
  sub-one_exact = λ n small. omega arith;
  at_most-one = λ n small. ground arith;
}

abbrev pub Channel : Type 0
Channel = Buffer Packet

abbrev pub channels : Mpsc Channel Packet
channels = buffers

-- A module is its place in the graph; every one passes each packet on.
abbrev pub relays : Modules NodeType
relays = record {
  name = λ t. "relay";
  node_type = λ t. t;
  max_payload_bytes = λ t. some 16;
  max_processing_time = λ t. none;
  exclusive = λ t. true;
  same = λ t u. false;
  initialize = λ t. (t, ok tt);
  process = λ t p. (t, ok (some p));
  process_time = λ t p. 1;
  shutdown = λ t. (t, ok tt);
  migrate = λ t. (t, ok tt);
}

abbrev pub node : ℕ → NodeType → GraphNode NodeType Channel
node id t = Node.new relays channels id t 4

abbrev pub edge : ℕ → ℕ → Edge Channel
edge from to = Edge.new channels from to sequential none 4

-- A graph of three nodes in a row.
abbrev pub row_changes : List (Change NodeType Channel)
row_changes =
    adds (node 1 source)
    ∷ adds (node 2 transformer)
    ∷ adds (node 3 sink)
    ∷ connects (edge 1 2)
    ∷ connects (edge 2 3)
    ∷ []

abbrev pub row : FlowGraph NodeType Channel
row = run relays channels Flow.new row_changes

-- The same with an edge back from the second node to the first.
abbrev pub ring_changes : List (Change NodeType Channel)
ring_changes =
    adds (node 1 source)
    ∷ adds (node 2 transformer)
    ∷ connects (edge 1 2)
    ∷ connects (edge 2 1)
    ∷ []

abbrev pub ring : FlowGraph NodeType Channel
ring = run relays channels Flow.new ring_changes
