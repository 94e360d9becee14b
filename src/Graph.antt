-- ===== src/Graph.antt =====
-- crates/nyarix-graph.
pub mod Channel
pub mod Condition
pub mod Queue
pub mod Edge
pub mod Node
pub mod Flow
pub mod Search
pub mod Cycle
pub mod Validate
pub mod Execution
pub mod Parallel
pub mod Throughput
