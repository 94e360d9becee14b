-- ===== src/Tests/PacketTests.antt =====
-- Packets, tags, traces and the pool at concrete inputs.
use nyarix_runtime.Base.{◌≤◌, ◌≡◌, arith, true, List, [], ◌∷◌}
use nyarix_runtime.Packet.{set_payload}
use nyarix_runtime.Packet.Metadata.{new, with_tracing, trace_summary}
use nyarix_runtime.Packet.Metadata.Trace.{record_hops, expected_summary, trace_summary-record_hops}
use nyarix_runtime.Packet.Pool.{acquire, release, available}
use nyarix_runtime.Packet.Pool
use nyarix_runtime.Packet.Pool.Reuse.{
  Call, acquires, releases, run, run-acquire_empty, acquire-release_stale,
}
use nyarix_runtime.Tests.Fixtures.{packet, control_packet}

trace_summary-record_hops_example :
    let m = new 1 2 3 1000000 in
    (trace_summary (record_hops ((3000000, 4) ∷ (5000000, 5) ∷ []) (with_tracing m true))
      ≡ expected_summary true 1000000 ((3000000, 4) ∷ (5000000, 5) ∷ []))
    × (record_hops ((3000000, 4) ∷ (5000000, 5) ∷ []) m ≡ m)
trace_summary-record_hops_example =
    trace_summary-record_hops 1 2 3 1000000 true ((3000000, 4) ∷ (5000000, 5) ∷ [])

abbrev calls : List Call
calls = releases (packet 1) 10 ∷ releases (packet 2) 11 ∷ acquires (packet 3) ∷ []

run-acquire_empty_example :
    let pool = run (Pool.new 1) calls in
    ((acquire pool (set_payload (packet 4) [])).0.payload ≡ []) × (available pool ≤ 1)
run-acquire_empty_example = run-acquire_empty 1 calls (packet 4)

acquire-release_stale_example :
    let (p, after) = acquire (release (Pool.new 1) (control_packet 1) 10) (packet 4) in
    (p.id ≡ 10)
    × (p.payload ≡ [])
    × (p.metadata ≡ (control_packet 1).metadata)
    × (p.tags ≡ (control_packet 1).tags)
    × (available after ≡ available (Pool.new 1))
unfolding available Pool.new
acquire-release_stale_example =
    acquire-release_stale (Pool.new 1) (control_packet 1) (packet 4) 10 (omega arith)
