-- ===== src/Tests/ExecutionTests.antt =====
-- Validation, execution, throughput and priorities at concrete inputs.
use nyarix_runtime.Base.{ℕ, refl, arith, List, [], ◌∷◌}
use nyarix_runtime.Packet.Tags.Native.{native_flags}
use nyarix_runtime.Graph.Flow.Changes.{run-new-InSync}
use nyarix_runtime.Graph.Validate.{validate}
use nyarix_runtime.Graph.Validate.Report.{Report, validate-Report}
use nyarix_runtime.Graph.Execution.{execute_sequential}
use nyarix_runtime.Graph.Execution.Walk.{WalkOk}
use nyarix_runtime.Graph.Execution.Outcome.{execute_sequential-WalkOk}
use nyarix_runtime.Graph.Throughput.Window.{Sample, Holds, run}
use nyarix_runtime.Graph.Throughput.Recent.{run-Holds}
use nyarix_runtime.Tests.Fixtures.{packet, channels, relays, row, row_changes, ring, ring_changes}

validate-Report_example : Report ring (validate ring)
validate-Report_example = validate-Report ring (run-new-InSync relays channels ring_changes)

abbrev clock : ℕ → ℕ
clock i = i

execute_sequential-WalkOk_example :
    WalkOk row 1 (execute_sequential relays channels native_flags clock 2 row 1 (packet 5))
unfolding validate nyarix_runtime.Graph.Flow.Changes.run nyarix_runtime.Graph.Flow.Changes.step
    nyarix_runtime.Graph.Flow.connect nyarix_runtime.Graph.Flow.add_node
    nyarix_runtime.Graph.Node.new nyarix_runtime.Graph.Flow.new nyarix_runtime.Graph.Edge.new
    nyarix_runtime.Graph.Cycle.detect_cycle nyarix_runtime.Graph.Search.find_path
execute_sequential-WalkOk_example =
    execute_sequential-WalkOk relays channels native_flags clock 2 row 1 (packet 5)
      (run-new-InSync relays channels row_changes) refl refl

-- Three samples of two flows, the newest first.
abbrev history : List Sample
history = (30, 1, 7) ∷ (25, 2, 9) ∷ (12, 1, 5) ∷ []

run-Holds_example : Holds 10 20 history (run 10 history)
run-Holds_example = run-Holds 10 history (omega arith, (omega arith, omega arith))
