-- ===== src/Tests/ParallelTests.antt =====
-- Parallel execution at concrete inputs: a fork below a fork, and one permit.
use nyarix_runtime.Base.Lists.{None}
use nyarix_runtime.Base.{
  Result, ok, err, ◌⊎◌, ℕ, zero, suc, ◌+◌, ◌≤◌, ◌≡◌, refl, List, [], ◌∷◌, Option, none, some, arith,
}
use nyarix_runtime.Packet.Tags.Native.{native_flags}
use nyarix_runtime.Graph.Edge.{Edge, parallel}
use nyarix_runtime.Graph.Edge
use nyarix_runtime.Graph.Node.{NodeType, source, transformer, sink}
use nyarix_runtime.Graph.Flow.{FlowGraph}
use nyarix_runtime.Graph.Flow
use nyarix_runtime.Graph.Flow.Changes.{Change, adds, connects, run}
use nyarix_runtime.Graph.Execution.Walk.{SameShape}
use nyarix_runtime.Graph.Parallel.{
  Branch, joins, cons, Shared, Surroundings, advance, Step, leaf, inner, here, Reach, start, next,
  held, ended, release, is_parallel, execute_parallel, Exited, returns,
}
use nyarix_runtime.Graph.Parallel.Permits.{Reach-held}
use nyarix_runtime.Graph.Parallel.Places.{Placed}
use nyarix_runtime.Graph.Parallel.Exits.{Reach-Placed}
use nyarix_runtime.Packet.{Packet}
use nyarix_runtime.Graph.Execution.{Ran, returned, ExecutionError, execute_sequential}
use nyarix_runtime.Graph.Parallel.Stepping.{Same, NotFull, sur}
use nyarix_runtime.Graph.Parallel.Deadlock.{no_more, one_more, this, Nested, at_forks, Reach-Nested}
use nyarix_runtime.Graph.Parallel.Sequential.{execute_sequential-execute_parallel}
use nyarix_runtime.Tests.Fixtures.{Channel, channels, relays, node, packet, row}

abbrev surroundings : Surroundings NodeType Channel
surroundings = record { ops = relays; ch = channels; fl = native_flags; clock = λ p x. x }

abbrev forks_to : ℕ → ℕ → Edge Channel
forks_to from to = Edge.new channels from to parallel none 4

abbrev forks_changes : List (Change NodeType Channel)
forks_changes =
    adds (node 1 source)
    ∷ adds (node 2 transformer)
    ∷ adds (node 3 sink)
    ∷ connects (forks_to 1 2)
    ∷ connects (forks_to 2 3)
    ∷ []

abbrev forks : FlowGraph NodeType Channel
forks = run relays channels Flow.new forks_changes

-- A transition of the first branch, if it has one.
abbrev Moved : Shared NodeType Channel → Branch → Type 0
Moved s b = (t : Shared NodeType Channel) × (c : Branch) × Step surroundings s b t c

of_leaf :
    (s : Shared NodeType Channel) (b : Branch) (o : Option (Shared NodeType Channel × Branch))
    → advance surroundings s b ≡ o
    → Option (Moved s b)
of_leaf s b none e = none
of_leaf s b (some (t, c)) e = some (t, c, leaf e)

move : (s : Shared NodeType Channel) (b : Branch) → Option (Moved s b)
unfolding of_leaf
move s (joins (cons b bs) results) = elim (move s b) [
  | none ↦ none
  | some (t, c, k) ↦
      some (release surroundings (ended c) t, joins (cons c bs) results, inner (here k))
]
move s b = of_leaf s b (advance surroundings s b) refl

abbrev Moves : Shared NodeType Channel → Branch → Type 0
Moves s b = (t : Shared NodeType Channel) × (c : Branch) × Reach surroundings s b t c

moves : ℕ → (s : Shared NodeType Channel) (b : Branch) → Moves s b
unfolding move
moves zero s b = (s, b, start)
moves (suc n) s b =
    let (t, c, r) = moves n s b in
    elim (move t c) [ none ↦ (t, c, r) | some (u, d, k) ↦ (u, d, next r k) ]

-- Eight transitions lead to the deadlock.
deadlock : Moves (execute_parallel forks 1 (packet 5) 1).0 (execute_parallel forks 1 (packet 5) 1).1
unfolding moves
deadlock = moves 8 _ _

Reach-held_example : (deadlock.0.permits + held deadlock.1 ≡ 2) × (held deadlock.1 ≤ 2)
Reach-held_example = Reach-held surroundings forks 1 (packet 5) 1 deadlock.2

Reach-Placed_example : SameShape forks deadlock.0.graph × Placed forks 1 deadlock.1
Reach-Placed_example = Reach-Placed surroundings forks 1 (packet 5) 1 deadlock.2

deadlock-Nested : Nested deadlock.1
unfolding deadlock execute_parallel run nyarix_runtime.Graph.Flow.Changes.step Flow.connect
    Flow.add_node nyarix_runtime.Graph.Node.new Flow.new Edge.new advance nyarix_runtime.Packet.new
    Edge.accepts ended
deadlock-Nested = at_forks (this (one_more no_more))

stays : Reach surroundings deadlock.0 deadlock.1 deadlock.0 deadlock.1
stays = start

Reach-Nested_example :
    ((deadlock.0 ≡ deadlock.0) × (deadlock.0.permits ≡ 0) × Nested deadlock.1)
    ⊎ ((e : ExecutionError) × (deadlock.1 ≡ returns (err e)))
Reach-Nested_example =
    Reach-Nested surroundings forks 1 (packet 5) 1 (omega arith) deadlock.2 deadlock-Nested stays

-- The graph and the answer of a walk that returns.
graph_after : Ran NodeType Channel → FlowGraph NodeType Channel
graph_after (returned g a) = g
graph_after _ = row

answer_after : Ran NodeType Channel → Result (Option Packet) ExecutionError
answer_after (returned g a) = a
answer_after _ = ok none

abbrev walk : Ran NodeType Channel
walk = execute_sequential relays channels native_flags (λ i. 7) 0 row 1 (packet 5)

walk_returned : walk ≡ returned (graph_after walk) (answer_after walk)
unfolding graph_after answer_after execute_sequential run nyarix_runtime.Graph.Flow.Changes.step
    Flow.connect Flow.add_node nyarix_runtime.Graph.Node.new Flow.new Edge.new
    nyarix_runtime.Packet.new Edge.accepts
walk_returned = refl

walk_room : NotFull (answer_after walk)
unfolding answer_after execute_sequential run nyarix_runtime.Graph.Flow.Changes.step Flow.connect
    Flow.add_node nyarix_runtime.Graph.Node.new Flow.new Edge.new nyarix_runtime.Packet.new
    Edge.accepts
walk_room id e = cc e

row_single : None is_parallel row.edges
unfolding execute_sequential run nyarix_runtime.Graph.Flow.Changes.step Flow.connect Flow.add_node
    nyarix_runtime.Graph.Node.new Flow.new Edge.new nyarix_runtime.Packet.new Edge.accepts
row_single = refl

execute_sequential-execute_parallel_example :
    (r : Result (List Exited) ExecutionError) × Reach
      (sur relays channels native_flags 7)
      (execute_parallel row 1 (packet 5) 4).0
      (execute_parallel row 1 (packet 5) 4).1
      (record { graph = graph_after walk; permits = 4 })
      (returns r)
    × Same (answer_after walk) r
execute_sequential-execute_parallel_example =
    execute_sequential-execute_parallel relays channels native_flags 7 0 row (graph_after walk) 1
      (packet 5) 4 (answer_after walk) row_single walk_returned walk_room
