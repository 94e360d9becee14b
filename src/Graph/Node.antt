-- ===== src/Graph/Node.antt =====
-- crates/nyarix-graph/src/node.rs. A node's module, an `Arc<dyn Node>`, is a value of a type `M`
-- with the operations of the traits `Module` and `Node` that the graph calls.
use Prim.Native.String.{String}
use nyarix_runtime.Base.{ℕ, Bool, Option, Result, ok, err, if◌then◌else◌}
use nyarix_runtime.Errors.{ModuleError, not_exclusively_owned}
use nyarix_runtime.Packet.{Packet}
use nyarix_runtime.Graph.Channel.{Mpsc}
use nyarix_runtime.Graph.Queue.{NodeQueue, node_queue}

-- `NodeType` of crates/nyarix-module-api/src/node.rs.
pub data NodeType : Type 0 where
  source transformer filter encryptor packer obfuscator transport router : NodeType
  aggregator observer policy_resolver sink : NodeType

pub data NodeState : Type 0 where
  uninitialized initializing running degraded stopping stopped : NodeState

abbrev pub default_queue_capacity : ℕ
default_queue_capacity = 64

-- The modules that a graph runs. A lifecycle call returns the module after it; the runtime context
-- that the source passes on is fixed. `exclusive` is whether `Arc::get_mut` succeeds, `same` is
-- `Arc::ptr_eq`, and `process_time` is how long a call of `process` takes, in nanoseconds.
pub record Modules (M : Type 0) : Type 0 where
  pub name : M → String
  pub node_type : M → NodeType
  pub max_payload_bytes : M → Option ℕ
  pub max_processing_time : M → Option ℕ
  pub exclusive : M → Bool
  pub same : M → M → Bool
  pub initialize : M → M × Result (Unit {0}) ModuleError
  pub process : M → Packet → M × Result (Option Packet) ModuleError
  pub process_time : M → Packet → ℕ
  pub shutdown : M → M × Result (Unit {0}) ModuleError
  pub migrate : M → M × Result (Unit {0}) ModuleError

-- `NodeConfig` is its queue capacity: the configuration for the module is not read by the graph.
pub record GraphNode (M C : Type 0) : Type 0 where
  pub id : ℕ
  pub node_type : NodeType
  pub module_arc : M
  pub queue_capacity : ℕ
  pub state : NodeState
  pub queue : NodeQueue C

module _ {M C : Type 0} (ops : Modules M) where
  unfoldable pub new : Mpsc C Packet → ℕ → M → ℕ → GraphNode M C
  unfolding node_queue
  new ch id m capacity = record {
    id = id;
    node_type = ops.node_type m;
    module_arc = m;
    queue_capacity = capacity;
    state = uninitialized;
    queue = node_queue ch capacity;
  }

  -- A lifecycle call through `Arc::get_mut`: refused if the module has another owner.
  unfoldable pub exclusively :
      {R : Type 0}
      → GraphNode M C
      → (M → M × Result R ModuleError)
      → GraphNode M C × Result R ModuleError
  exclusively n call =
      if ops.exclusive n.module_arc
      then (let (m, r) = call n.module_arc in (record n { module_arc = m }, r))
      else (n, err (not_exclusively_owned (ops.name n.module_arc)))

  unfoldable pub process :
      GraphNode M C → Packet → GraphNode M C × Result (Option Packet) ModuleError
  unfolding exclusively
  process n p = exclusively n (λ m. ops.process m p)

  unfoldable pub migrate : GraphNode M C → GraphNode M C × Result (Unit {0}) ModuleError
  unfolding exclusively
  migrate n = exclusively n ops.migrate

  -- The state after a lifecycle call, which only a successful one changes.
  unfoldable pub settle :
      NodeState
      → GraphNode M C × Result (Unit {0}) ModuleError
      → GraphNode M C × Result (Unit {0}) ModuleError
  settle s (n, ok u) = (record n { state = s }, ok u)
  settle s (n, err e) = (n, err e)

  unfoldable pub initialize : GraphNode M C → GraphNode M C × Result (Unit {0}) ModuleError
  unfolding exclusively settle
  initialize n = settle running (exclusively (record n { state = initializing }) ops.initialize)

  unfoldable pub shutdown : GraphNode M C → GraphNode M C × Result (Unit {0}) ModuleError
  unfolding exclusively settle
  shutdown n = settle stopped (exclusively (record n { state = stopping }) ops.shutdown)
