-- ===== src/Packet/Metadata.antt =====
-- crates/nyarix-packet/src/metadata.rs. Identifiers are the UUIDs as numbers; an `Instant` is a
-- number of nanoseconds, and the current time is an argument, `now`.
pub mod Trace
use nyarix_runtime.Base.{
  ℕ, zero, suc, ◌-◌, ◌/◌, ◌^◌, min, Bool, true, false, List, [], ◌∷◌, ◌++◌, Option, none, some,
  ◌==◌, leb, if◌then◌else◌, get_elem?,
}

abbrev pub default_ttl : ℕ
default_ttl = 32

abbrev pub u64_max : ℕ
u64_max = 2 ^ 64 - 1

pub data Role : Type 0 where
  client server relay gateway : Role

pub data Reliability : Type 0 where
  best_effort reliable at_most_once : Reliability

pub data PrivacyPolicy : Type 0 where
  none_required standard maximum minimal : PrivacyPolicy

pub record Metadata : Type 0 where
  pub session_id : ℕ
  pub flow_id : ℕ
  pub stream_id : ℕ
  pub route_id : ℕ
  pub source_node : Option ℕ
  pub destination_node : Option ℕ
  pub source_role : Option Role
  pub destination_role : Option Role
  pub priority : ℕ
  pub deadline : Option ℕ
  pub mtu_hint : Option ℕ
  pub latency_hint_us : Option ℕ
  pub reliability : Reliability
  pub created_at : ℕ
  pub ttl : ℕ
  pub retry_count : ℕ
  pub origin_module : Option ℕ
  pub trace : List ℕ
  pub traced : Bool
  pub trace_detailed : Bool
  pub trace_timestamps_ms : List ℕ
  pub privacy_policy : PrivacyPolicy
  pub capability_mask : ℕ

-- The three fresh identifiers and the current time are arguments; `RouteId::nil()` is 0.
unfoldable pub new : ℕ → ℕ → ℕ → ℕ → Metadata
new session flow stream now = record {
  session_id = session;
  flow_id = flow;
  stream_id = stream;
  route_id = 0;
  source_node = none;
  destination_node = none;
  source_role = none;
  destination_role = none;
  priority = 128;
  deadline = none;
  mtu_hint = none;
  latency_hint_us = none;
  reliability = best_effort;
  created_at = now;
  ttl = default_ttl;
  retry_count = 0;
  origin_module = none;
  trace = [];
  traced = false;
  trace_detailed = false;
  trace_timestamps_ms = [];
  privacy_policy = none_required;
  capability_mask = 0;
}

unfoldable pub with_session : Metadata → ℕ → Metadata
with_session m id = record m { session_id = id }

unfoldable pub with_flow : Metadata → ℕ → Metadata
with_flow m id = record m { flow_id = id }

unfoldable pub with_source : Metadata → ℕ → Metadata
with_source m node = record m { source_node = some node }

unfoldable pub with_destination : Metadata → ℕ → Metadata
with_destination m node = record m { destination_node = some node }

unfoldable pub with_tracing : Metadata → Bool → Metadata
with_tracing m detailed = record m { traced = true; trace_detailed = detailed }

unfoldable pub trace_push : Metadata → ℕ → Metadata
trace_push m node = record m { trace = m.trace ++ node ∷ [] }

-- `as_millis` of the time since `earlier`, which is zero if `earlier` is later, clamped to 64 bits.
unfoldable pub millis_between : ℕ → ℕ → ℕ
millis_between later earlier = min ((later - earlier) / 1000000) u64_max

unfoldable pub record_hop : ℕ → Metadata → ℕ → Metadata
unfolding millis_between
record_hop now m node =
    if m.traced
    then (if m.trace_detailed
        then record m {
          trace = m.trace ++ node ∷ [];
          trace_timestamps_ms = m.trace_timestamps_ms ++ millis_between now m.created_at ∷ [];
        }
        else record m { trace = m.trace ++ node ∷ [] })
    else m

pub record TraceHop : Type 0 where
  pub node : ℕ
  pub elapsed_ms : Option ℕ

-- The hops from index `i` on, each with its entry in the list of timestamps.
unfoldable pub trace_hops : List ℕ → ℕ → List ℕ → List TraceHop
trace_hops stamps i [] = []
trace_hops stamps i (node ∷ rest) =
    record { node = node; elapsed_ms = get_elem? stamps i } ∷ trace_hops stamps (suc i) rest

unfoldable pub trace_summary : Metadata → List TraceHop
unfolding trace_hops
trace_summary m = trace_hops m.trace_timestamps_ms 0 m.trace

unfoldable pub reset_ttl : Metadata → Metadata
reset_ttl m = record m { ttl = default_ttl }

unfoldable pub is_expired : ℕ → Metadata → Bool
is_expired now m =
    if m.ttl == 0 then true else elim m.deadline [ none ↦ false | some deadline ↦ leb deadline now ]
