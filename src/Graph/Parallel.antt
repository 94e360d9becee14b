-- ===== src/Graph/Parallel.antt =====
-- crates/nyarix-graph/src/execution.rs: `execute_parallel`, as the transitions of its branches. The
-- lock on the graph makes each section of `walk_node` that holds it one transition. Metrics are left
-- out, and a branch task that panics. Where a task fails, its siblings end at once, where
-- the source aborts them at their next wait.
pub mod Permits
pub mod Deadlock
pub mod Places
pub mod Exits
pub mod Stepping
pub mod Sequential
use Prim.Native.Nat.{max}
use nyarix_runtime.Base.{
  ℕ, zero, suc, ◌+◌, ◌-◌, Bool, true, false, not, ◌≡◌, List, [], ◌∷◌, ◌++◌, Option, none, some,
  Result, ok, err, if◌then◌else◌, retain, elem,
}
use nyarix_runtime.Base.Maps.{lookup, insert}
use nyarix_runtime.Errors.{GraphError, missing_node, build_failed, queue_closed, no_accepting_edge}
use nyarix_runtime.Packet.{Packet, record_hop}
use nyarix_runtime.Packet.Tags.{Bitflags}
use nyarix_runtime.Graph.Channel.{Mpsc}
use nyarix_runtime.Graph.Queue.{
  NodeQueue, Lane, control, interactive, bulk, lane_for, try_send, try_recv_prioritized,
}
use nyarix_runtime.Graph.Edge.{Edge, EdgeType, parallel, accepts}
use nyarix_runtime.Graph.Node.{GraphNode, Modules, process}
use nyarix_runtime.Graph.Flow.{FlowGraph, edges_from}
use nyarix_runtime.Graph.Execution.{
  ExecutionError, graph_failed, Hopped, hopped, panicked, check_payload_limit, after_process,
}

-- A packet, with the exit point at which its branch ended.
abbrev pub Exited : Type 0
Exited = ℕ × Packet

-- Where a branch is: before its permit, before the first section of `walk_node`, at the sending into
-- the node's queue, before the second section, at `join_next` with the tasks left and the results so
-- far, and returned. `Branches` is the `JoinSet`.
mutual
  pub data Branch : Type 0 where
    waits_permit enters sends : ℕ → Packet → Branch
    receives : ℕ → Branch
    joins : Branches → List Exited → Branch
    returns : Result (List Exited) ExecutionError → Branch

  pub data Branches : Type 0 where
    nil : Branches
    cons : Branch → Branches → Branches

-- What the branches share: the graph and the semaphore.
pub record Shared (M C : Type 0) : Type 0 where
  pub graph : FlowGraph M C
  pub permits : ℕ

-- `clock p x` is the time at which `p` is about to enter the queue of node `x`.
pub record Surroundings (M C : Type 0) : Type 0 where
  pub ops : Modules M
  pub ch : Mpsc C Packet
  pub fl : Bitflags
  pub clock : Packet → ℕ → ℕ

abbrev pub is_parallel : {C : Type 0} → Edge C → Bool
is_parallel e = elim e.edge_type [ parallel ↦ true | _ ↦ false ]

-- The tasks spawned for the targets.
unfoldable pub spawn_all : Packet → {C : Type 0} → List (Edge C) → Branches
spawn_all p [] = nil
spawn_all p (e ∷ es) = cons (waits_permit e.to p) (spawn_all p es)

-- The targets of the accepting edges: the parallel ones, else the first.
unfoldable pub fork : {C : Type 0} → ℕ → Packet → List (Edge C) → List (Edge C) → Branch
unfolding spawn_all
fork x p (e ∷ es) accepting = joins (spawn_all p (e ∷ es)) []
fork x p [] [] = returns (err (graph_failed (build_failed (no_accepting_edge x))))
fork x p [] (e ∷ es) = enters e.to p

-- Whether a branch has ended, as a number.
unfoldable pub ended : Branch → ℕ
ended (returns r) = 1
ended _ = 0

-- The permits that a branch and the tasks below it hold until the branch ends; a task of a set that has
-- ended holds none.
unfoldable mutual
  unfolding ended

  pub held : Branch → ℕ
  held (waits_permit x p) = 0
  held (enters x p) = 1
  held (sends x p) = 1
  held (receives x) = 1
  held (joins bs results) = suc (held_all bs)
  held (returns r) = 1

  pub held_all : Branches → ℕ
  held_all nil = 0
  held_all (cons b bs) = (held b - ended b) + held_all bs

-- A task taken out of the set.
pub data Picked (b : Branch) : Branches → Branches → Type 0 where
  first : {bs : Branches} → Picked b (cons b bs) bs
  later : {c : Branch} {bs cs : Branches} → Picked b bs cs → Picked b (cons c bs) (cons c cs)

module _ {M C : Type 0} (sur : Surroundings M C) where
  unfoldable pub with_node : Shared M C → ℕ → GraphNode M C → Shared M C
  with_node s x node = record s { graph = record (s.graph) { nodes = insert x node s.graph.nodes } }

  abbrev pub lane : NodeQueue C → Packet → C
  lane q p = elim (lane_for sur.fl p) [
    | control ↦ q.control_lane
    | interactive ↦ q.interactive_lane
    | bulk ↦ q.bulk_lane
  ]

  -- After the node processed a packet.
  unfoldable pub step_on : Shared M C → ℕ → Hopped M C → Option (Shared M C × Branch)
  unfolding fork with_node
  step_on s x panicked = none
  step_on s x (hopped node (err e)) = some (with_node s x node, returns (err e))
  step_on s x (hopped node (ok none)) = some (with_node s x node, returns (ok []))
  step_on s x (hopped node (ok (some p))) =
      if elem x s.graph.exit_points
      then some (with_node s x node, returns (ok ((x, p) ∷ [])))
      else (let accepting = retain (λ e. accepts sur.fl e p) (edges_from s.graph x) in
          some (with_node s x node, fork x p (retain is_parallel accepting) accepting))

  -- The second section of `walk_node`.
  unfoldable pub receive : Shared M C → ℕ → GraphNode M C → Option (Shared M C × Branch)
  unfolding step_on after_process process try_recv_prioritized
  receive s x node = elim (try_recv_prioritized sur.ch node.queue) [
    | none ↦ none
    | some (queued, left) ↦ step_on s x (
        after_process sur.ops (sur.ops.process_time node.module_arc queued)
          (process sur.ops (record node { queue = left }) queued))
  ]

  -- The next transition of a branch that does not wait for others; `none` while it waits.
  unfoldable pub advance : Shared M C → Branch → Option (Shared M C × Branch)
  unfolding receive check_payload_limit record_hop try_send with_node
  advance s (waits_permit x p) = elim s.permits [
    | zero ↦ none
    | suc n ↦ some (record s { permits = n }, enters x p)
  ]
  advance s (enters x p) = elim (lookup x s.graph.nodes) [
    | none ↦ some (s, returns (err (graph_failed (missing_node x))))
    | some node ↦ elim (check_payload_limit sur.ops node p) [
      | err e ↦ some (s, returns (err e))
      | ok u ↦ some (s, sends x (record_hop (sur.clock p x) p x))
    ]
  ]
  advance s (sends x p) = elim (lookup x s.graph.nodes) [
    | none ↦ some (s, returns (err (graph_failed (build_failed (queue_closed x)))))
    | some node ↦ elim (try_send sur.ch sur.fl node.queue p) [
      | some queue ↦ some (with_node s x (record node { queue = queue }), receives x)
      | none ↦
          if sur.ch.is_open (lane node.queue p)
          then none
          else some (s, returns (err (graph_failed (build_failed (queue_closed x)))))
    ]
  ]
  advance s (receives x) = elim (lookup x s.graph.nodes) [
    | none ↦ some (s, returns (err (graph_failed (missing_node x))))
    | some node ↦ receive s x node
  ]
  advance s (joins nil results) = some (s, returns (ok results))
  advance s (joins (cons b bs) results) = none
  advance s (returns r) = none

  abbrev pub release : ℕ → Shared M C → Shared M C
  release n s = record s { permits = s.permits + n }

  -- A transition of one branch. A task gives its permit back when it ends. Where the answer of a task
  -- that is joined is an error, the tasks left are dropped, with the permits they hold.
  mutual
    pub data Step : Shared M C → Branch → Shared M C → Branch → Type 0 where
      leaf : {s t : Shared M C} {b c : Branch} → advance s b ≡ some (t, c) → Step s b t c
      inner :
          {s t : Shared M C} {bs cs : Branches} {results : List Exited}
          → StepIn s bs t cs
          → Step s (joins bs results) t (joins cs results)
      joined :
          {s : Shared M C} {bs cs : Branches} {results packets : List Exited}
          → Picked (returns (ok packets)) bs cs
          → Step s (joins bs results) s (joins cs (results ++ packets))
      failed :
          {s : Shared M C} {bs cs : Branches} {results : List Exited} {e : ExecutionError}
          → Picked (returns (err e)) bs cs
          → Step s (joins bs results) (release (held_all cs) s) (returns (err e))

    pub data StepIn : Shared M C → Branches → Shared M C → Branches → Type 0 where
      here :
          {s t : Shared M C} {b c : Branch} {bs : Branches}
          → Step s b t c
          → StepIn s (cons b bs) (release (ended c) t) (cons c bs)
      there :
          {s t : Shared M C} {b : Branch} {bs cs : Branches}
          → StepIn s bs t cs
          → StepIn s (cons b bs) t (cons b cs)

  pub data Reach (s : Shared M C) (b : Branch) : Shared M C → Branch → Type 0 where
    start : Reach s b s b
    next : {t u : Shared M C} {c d : Branch} → Reach s b t c → Step t c u d → Reach s b u d

module _ {M C : Type 0} where
  -- The call with at most `max_concurrent_branches` permits, and at least one.
  unfoldable pub execute_parallel : FlowGraph M C → ℕ → Packet → ℕ → Shared M C × Branch
  execute_parallel g entry p max_concurrent_branches = (
    record { graph = g; permits = max max_concurrent_branches 1 },
    if elem entry g.entry_points
        then enters entry p
        else returns (err (graph_failed (missing_node entry))),
  )
