-- ===== src/Tests/LoopTests.antt =====
-- The execution loop at concrete inputs: a graph of three nodes in a row, and two packets.
use nyarix_runtime.Base.{
  ◌≡◌, refl, ◌⊎◌, inl, arith, Bool, true, false, List, [], ◌∷◌, none, some, is_some,
}
use nyarix_runtime.Packet.{Packet}
use nyarix_runtime.Packet.Tags.Native.{native_flags}
use nyarix_runtime.Graph.Node.{NodeType}
use nyarix_runtime.Graph.Flow.{FlowGraph}
use nyarix_runtime.Graph.Flow.Changes.{run-new-InSync}
use nyarix_runtime.Graph.Validate.{validate}
use nyarix_runtime.Graph.Validate.Report.{Valid, validate-Report}
use nyarix_runtime.Graph.Execution.Runnable.{Runnable}
use nyarix_runtime.Runtime.Pause.{Flag, flags, is_paused}
use nyarix_runtime.Runtime.Loop.{
  Phase, waiting, selecting, draining, Setting, Running, Action, pauses, sends, cancels, reads,
  Reach, start, later, runs, acts, take, turn, turns, act,
}
use nyarix_runtime.Runtime.Loop.Taking.{Untouched, Took, turn-Took, InOrder, Reach-InOrder}
use nyarix_runtime.Runtime.Loop.Pausing.{
  Held, acts_in_turn, acts_in_turn-Held, Abandoned, turns-Abandoned,
}
use nyarix_runtime.Runtime.Loop.Draining.{Drained, turns-Drained}
use nyarix_runtime.Tests.Fixtures.{Channel, channels, relays, row, row_changes, packet}

abbrev setting : Setting NodeType Channel Flag
setting = record {
  ops = relays;
  ch = channels;
  fl = native_flags;
  watch = flags;
  clock = λ n i. i;
  wreck = λ g. g;
  entry = 1;
}

abbrev state :
    FlowGraph NodeType Channel → Phase → Bool → Flag → List Packet → Running NodeType Channel Flag
state g phase shutdown pause packets = record {
  graph = g;
  source = record { items = packets; capacity = 4; is_open = true };
  senders = true;
  sink = channels.channel 4;
  shutdown = shutdown;
  pause = pause;
  phase = phase;
  pushed = packets;
  taken = [];
}

abbrev held : Bool → Flag
held b = record { value = b; is_open = true }

abbrev two : List Packet
two = packet 5 ∷ packet 6 ∷ []

-- A packet arrives, another pause and a shutdown are requested, and the sink is read.
abbrev others : List (Action NodeType Channel)
others = sends (packet 7) ∷ pauses ∷ cancels ∷ reads ∷ []

acts_in_turn-Held_example :
    let s = state row waiting false (held true) two in
    Held setting (acts_in_turn setting others s)
    × (turn setting 3 (acts_in_turn setting others s) ≡ none)
    × ((acts_in_turn setting others s).taken ≡ [])
unfolding is_paused
acts_in_turn-Held_example =
    acts_in_turn-Held setting 3 others (state row waiting false (held true) two)
      (record { at = refl; paused = refl; held = refl }) tt

abbrev left : Running NodeType Channel Flag
left = state row waiting false (record { value = true; is_open = false }) two

turns-Abandoned_example :
    Abandoned setting (turns setting 0 9 left)
    × (is_some (turn setting 0 (turns setting 0 9 left)) ≡ true)
    × ((turns setting 0 9 left).source ≡ left.source)
    × ((turns setting 0 9 left).taken ≡ [])
unfolding is_paused
turns-Abandoned_example =
    turns-Abandoned setting 0 9 left
      (record { at = inl refl; paused = refl; dropped = refl; running = refl })

row-Runnable : Runnable row
unfolding validate nyarix_runtime.Graph.Flow.Changes.run nyarix_runtime.Graph.Flow.Changes.step
    nyarix_runtime.Graph.Flow.connect nyarix_runtime.Graph.Flow.add_node
    nyarix_runtime.Graph.Node.new nyarix_runtime.Graph.Flow.new nyarix_runtime.Graph.Edge.new
    nyarix_runtime.Graph.Cycle.detect_cycle nyarix_runtime.Graph.Search.find_path
row-Runnable =
    let report : Valid row = validate-Report row (run-new-InSync relays channels row_changes) in
    record {
      synced = run-new-InSync relays channels row_changes;
      strict = refl;
      acyclic = report.acyclic;
    }

abbrev stopped : Running NodeType Channel Flag
stopped = state row selecting true (held false) two

turns-Drained_example : Drained setting 0 stopped (turns setting 0 7 stopped)
turns-Drained_example =
    turns-Drained setting 0 7 stopped refl refl row-Runnable (refl, omega arith) (omega arith)

-- A packet arrives, a shutdown is requested, and the task takes note of it.
abbrev arrived : Running NodeType Channel Flag
arrived =
    act setting cancels
      (act setting (sends (packet 7)) (state row selecting false (held false) two))

arrivals :
    Reach setting (state row selecting false (held false) two) (record arrived { phase = draining })
unfolding turn act
arrivals = later (later (later start (acts (sends (packet 7)))) (acts cancels)) (runs 0 refl)

Reach-InOrder_example : InOrder setting (record arrived { phase = draining })
Reach-InOrder_example = Reach-InOrder setting refl arrivals

abbrev serving : Running NodeType Channel Flag
serving = state row selecting false (held false) two

-- The state after the next transition.
next : Running NodeType Channel Flag → Running NodeType Channel Flag
next s = elim (turn setting 0 s) [ none ↦ s | some t ↦ t ]

serves : turn setting 0 serving ≡ some (next serving)
unfolding turn take next nyarix_runtime.Runtime.Loop.process_one
    nyarix_runtime.Graph.Execution.execute_sequential nyarix_runtime.Graph.Flow.Changes.run
    nyarix_runtime.Graph.Flow.Changes.step nyarix_runtime.Graph.Flow.connect
    nyarix_runtime.Graph.Flow.add_node nyarix_runtime.Graph.Node.new nyarix_runtime.Graph.Flow.new
    nyarix_runtime.Graph.Edge.new nyarix_runtime.Packet.new nyarix_runtime.Graph.Edge.accepts
serves = refl

turn-Took_example : Untouched setting serving (next serving) ⊎ Took setting serving (next serving)
turn-Took_example = turn-Took setting 0 serving (next serving) serves
