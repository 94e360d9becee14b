-- ===== src/Lib.antt =====
-- Verification of nyarix-runtime, a runtime that passes packets through a graph of modules.
--
-- The program is a workspace of crates. A packet (crates/nyarix-packet) enters a graph
-- (crates/nyarix-graph) at an entry point. Each node has an input queue with three lanes and a
-- module, which may change the packet or absorb it; the edges out of a node carry conditions on the
-- packet, and the first that accepts it leads to the next node. The topology can be changed while
-- the graph is in use, and it is validated before it runs. The loader (crates/nyarix-loader) decides
-- which packages are loaded, in which versions and in which order; the interface of modules
-- (crates/nyarix-module-api) decides which module serves a request.
--
-- Files, and the code that they model:
-- - Base: Boolean tests, lists, maps and walks, shared by all others.
-- - Errors: crates/nyarix-error/src/lib.rs, the errors of modules and graphs.
-- - Packet, Packet/Tags, Packet/Metadata, Packet/Pool: crates/nyarix-packet/src/packet.rs, tags.rs,
--   metadata.rs and pool.rs. A packet is copied on write there, so it is a value here; the operations
--   keep their names, and a call that changes its object returns the changed object.
-- - Graph/Condition, Graph/Queue, Graph/Edge, Graph/Node: condition.rs, queue.rs, edge.rs and node.rs
--   of crates/nyarix-graph/src.
-- - Graph/Flow: the FlowGraph of graph.rs and the calls that change it; Graph/Search, Graph/Cycle and
--   Graph/Validate: its find_path, detect_cycle and validate.
-- - Graph/Execution, Graph/Parallel: execute_sequential and execute_parallel of execution.rs. The
--   branches of the latter interleave; the lock on the graph makes each section of walk_node that
--   holds it one transition. Graph/Throughput: throughput.rs.
-- - Loader/Dependencies, Loader/Versions, Loader/Conflicts, Loader/Rollback, Loader/Cache:
--   dependency_graph.rs, version_resolver.rs, conflict.rs, rollback.rs and cache.rs of
--   crates/nyarix-loader/src.
-- - ModuleApi/Versioning, ModuleApi/Fallback, ModuleApi/Capability, ModuleApi/IoPolicy,
--   ModuleApi/RateLimiter, ModuleApi/Event, ModuleApi/Context: the files of these names in
--   crates/nyarix-module-api/src. The context's locks make each of its calls one step, and the work
--   of a subscription's task is a sequence of polls of the broadcast channel.
-- - ModuleApi/Metrics: the histogram of crates/nyarix-module-api/src/metrics.rs, over any type with the
--   operations of f64 that it uses.
-- - Package/Signing, Package/Archive, Package/Trust: signing.rs, archive.rs and trust.rs of
--   crates/nyarix-package/src; an archive is the list of the members that tar reads from it.
-- - Runtime/Enforcement: capability_enforcement.rs and sandbox.rs of crates/nyarix-runtime/src, and
--   `instantiate` of crates/nyarix-loader/src/instantiation.rs.
-- - Runtime/Priority: TaskPriority and the queue of five lanes of
--   crates/nyarix-runtime/src/priority.rs; one poll of recv is one call.
-- - Runtime/Lifecycle: initialize_all_nodes and shutdown_all_nodes of
--   crates/nyarix-runtime/src/execution_loop.rs.
-- - Runtime/Pause, Runtime/Loop: pause.rs, and run_with_timeout of execution_loop.rs. The loop is a
--   task whose transitions alternate with those of the tasks around it; one poll of its select is one
--   transition, and so is the walk of a packet, which holds the lock on the graph.
-- - Runtime/Builder: crates/nyarix-runtime/src/graph_builder.rs.
-- - Tests: the theorems at concrete inputs.
--
-- Identifiers, names, versions and times are numbers; fresh identifiers and the clock are arguments.
-- A hash map is an association list, whose order stands for the order of iteration, which the code
-- leaves open: the theorems hold for any.
--
-- Code of other crates is a parameter. Graph/Channel states what tokio documents of a bounded
-- channel (Mpsc), Packet/Tags what bitflags documents of a set of flags (Bitflags), Loader/Versions
-- what semver documents of versions and ranges (Semver); the first two are met by concrete functions
-- in Graph/Channel and Packet/Tags/Native, the third in Tests/LoaderTests. Runtime/Pause states what
-- tokio documents of a watch channel (Watch), and meets it; ModuleApi/Capability and
-- ModuleApi/Event/Bus what bitflags documents of masks and tokio of a broadcast channel (MaskOps,
-- Broadcast), met in Tests/Fixtures and Tests/ModuleApiTests; ModuleApi/RateLimiter what IEEE 754
-- says of f64 (Floats), met by exact numbers in Tests/Fixtures. Package/Signing takes the keys and the test of a signature
-- of ed25519_dalek (Ed25519) without assuming anything of them. The modules that a graph
-- runs are the parameter Modules of Graph/Node, of which nothing is assumed. Rollback takes the
-- reading and the validation of an archive as functions.
--
-- Loops and recursion whose end is not evident from their arguments run on fuel: the breadth-first
-- search on one round for each node of the graph, the two depth-first searches on one nested call for
-- each node or package (one more for the load order), the execution of a packet on one hop more than
-- the graph has nodes. That this is enough is part of the theorems about them, where the answer that
-- stands for spent fuel, or for a panic, is shown not to occur; for the execution this holds on graphs
-- without feedback edges. Over feedback edges a walk may be of any length, so execute_sequential takes
-- a number of further rounds, and what is said of it, and of the execution loop, holds for any number:
-- a transition of the loop may need as many as the walk of its packet takes, and one whose walk never
-- ends makes no transition. Graph/Execution/Rounds shows that more rounds do not change an answer.
--
-- Not modelled: the waiting calls on the node queues but those of the executions, metrics but the
-- histogram, logs, serialization, files, the packing of archives, and the crate nyarix-runtime apart
-- from priority.rs, version_is_cached, the graph builder, the execution loop, the pause handles and
-- the enforcement of capabilities.
pub mod Base
pub mod Errors
pub mod Packet
pub mod Graph
pub mod Loader
pub mod ModuleApi
pub mod Package
pub mod Runtime
pub mod Tests
