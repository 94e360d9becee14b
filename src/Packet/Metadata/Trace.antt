-- ===== src/Packet/Metadata/Trace.antt =====
-- The trace of a packet: which hops `record_hop` records, and how `trace_summary` reads them.
use mathlib.Core.List.{append-nil, append_assoc}
use nyarix_runtime.Base.{
  sym, if◌then◌else◌, ℕ, suc, ◌≡◌, refl, Bool, true, false, List, [], ◌∷◌, ◌++◌, map, none, some,
  arith,
}
use nyarix_runtime.Packet.Metadata.{
  Metadata, TraceHop, record_hop, new, trace_summary, trace_hops, with_tracing, millis_between,
}

-- The execution engine's calls on one packet: a time and a node each.
pub record_hops : List (ℕ × ℕ) → Metadata → Metadata
record_hops [] m = m
record_hops ((now, node) ∷ hops) m = record_hops hops (record_hop now m node)

trace_hops_tail :
    (a : ℕ) (stamps : List ℕ) (i : ℕ) (nodes : List ℕ)
    → trace_hops (a ∷ stamps) (suc i) nodes ≡ trace_hops stamps i nodes
unfolding trace_hops
trace_hops_tail a stamps i [] = refl
trace_hops_tail a stamps i (n ∷ nodes) = rw (trace_hops_tail a stamps (suc i) nodes)

abbrev stamped : ℕ → ℕ × ℕ → TraceHop
stamped start (now, node) = record { node = node; elapsed_ms = some (millis_between now start) }

abbrev stamps : ℕ → List (ℕ × ℕ) → List ℕ
stamps start [] = []
stamps start ((now, node) ∷ hops) = millis_between now start ∷ stamps start hops

abbrev nodes : List (ℕ × ℕ) → List ℕ
nodes [] = []
nodes ((now, node) ∷ hops) = node ∷ nodes hops

trace_hops-stamps :
    (start : ℕ) (hops : List (ℕ × ℕ))
    → trace_hops (stamps start hops) 0 (nodes hops) ≡ map (stamped start) hops
unfolding trace_hops
trace_hops-stamps start [] = refl
trace_hops-stamps start ((now, node) ∷ hops) = rw (
  trace_hops_tail (millis_between now start) (stamps start hops) 0 (nodes hops),
  trace_hops-stamps start hops,
)

-- Without timestamps every hop is summarised by its node alone.
trace_hops-nil :
    (i : ℕ) (hops : List (ℕ × ℕ))
    → trace_hops [] i (nodes hops) ≡ map (λ h. record { node = h.1; elapsed_ms = none }) hops
unfolding trace_hops
trace_hops-nil i [] = refl
trace_hops-nil i ((now, node) ∷ hops) = rw (trace_hops-nil (suc i) hops)

record_hops-untraced :
    (hops : List (ℕ × ℕ)) (m : Metadata) → m.traced ≡ false → record_hops hops m ≡ m
unfolding record_hops record_hop
record_hops-untraced [] m h = refl
record_hops-untraced ((now, node) ∷ hops) m h = ground (arith, record_hops-untraced hops m)

-- What a traced packet has recorded after some hops.
record Records (m : Metadata) (hops : List (ℕ × ℕ)) (r : Metadata) : Type 0 where
  trace : r.trace ≡ m.trace ++ nodes hops
  times : r.trace_timestamps_ms ≡ (
      if m.trace_detailed
      then m.trace_timestamps_ms ++ stamps m.created_at hops
      else m.trace_timestamps_ms)

record_hops-Records :
    (hops : List (ℕ × ℕ)) (m : Metadata) → m.traced ≡ true → Records m hops (record_hops hops m)
unfolding record_hops record_hop
record_hops-Records [] m h = record {
  trace = sym (append-nil m.trace);
  times = ground (arith, append-nil m.trace_timestamps_ms);
}
record_hops-Records ((now, node) ∷ hops) m h =
    let m' = record_hop now m node in
    let ih = record_hops-Records hops m' (ground arith) in
    let one = millis_between now m.created_at ∷ [] in
    record {
      trace = ground (arith, ih.trace, append_assoc m.trace (node ∷ []) (nodes hops));
      times =
          ground
            (arith, ih.times, append_assoc m.trace_timestamps_ms one (stamps m.created_at hops));
    }

-- What `trace_summary` shows of a packet made at `start` and traced, with or without timestamps.
abbrev pub expected_summary : Bool → ℕ → List (ℕ × ℕ) → List TraceHop
expected_summary true start hops = map (stamped start) hops
expected_summary false start hops = map (λ h. record { node = h.1; elapsed_ms = none }) hops

-- For metadata that was just created and opted into tracing, the summary after any sequence of
-- hops lists every visited node in order; each with the milliseconds from creation to that hop, at
-- most 64 bits of them, if the tracing is detailed, and with no time otherwise. Metadata that did
-- not opt in is left as it was.
pub trace_summary-record_hops :
    (session flow stream start : ℕ) (detailed : Bool) (hops : List (ℕ × ℕ))
    → let m = new session flow stream start in
      (trace_summary (record_hops hops (with_tracing m detailed))
        ≡ expected_summary detailed start hops)
      × (record_hops hops m ≡ m)
unfolding trace_summary with_tracing new
trace_summary-record_hops session flow stream start detailed hops =
    (summary detailed, record_hops-untraced hops _ refl)
  where
    recorded :
        (d : Bool)
        → Records
            (with_tracing (new session flow stream start) d)
            hops
            (record_hops hops (with_tracing (new session flow stream start) d))
    recorded d = record_hops-Records hops _ refl

    summary :
        (d : Bool)
        → trace_summary (record_hops hops (with_tracing (new session flow stream start) d))
          ≡ expected_summary d start hops
    summary true = rw ((recorded true).trace, (recorded true).times) (trace_hops-stamps start hops)
    summary false = rw ((recorded false).trace, (recorded false).times) (trace_hops-nil 0 hops)
