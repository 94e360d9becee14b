-- ===== src/Tests/ModuleApiTests.antt =====
-- Capabilities, events and the context of a module at concrete inputs.
use nyarix_runtime.Base.{
  ℕ, suc, ◌↔◌, ◌+◌, ◌-◌, ◌<◌, ◌≤◌, ◌≡◌, refl, ◌⊎◌, inl, inr, true, ◌&&◌, List, [], ◌∷◌, ◌++◌,
  Option, none, some, arith, ltb, leb, if◌then◌else◌, length, get_elem?, Bool-cases, Option-cases,
}
use nyarix_runtime.ModuleApi.Capability.{
  Capability, filesystem, network, dns, request, grant_has, has, is_fully_granted,
}
use nyarix_runtime.ModuleApi.Capability.Grants.{requests, Denials, request-has}
use nyarix_runtime.ModuleApi.RateLimiter
use nyarix_runtime.ModuleApi.RateLimiter.Bound.{repeated, calls, calls-new}
use nyarix_runtime.ModuleApi.Event.{Event, EventFilter, only, flow_built}
use nyarix_runtime.ModuleApi.Event.Bus.{
  Received, received, lagged, closed, pending, Broadcast, spawn,
}
use nyarix_runtime.ModuleApi.Event.Delivery.{
  Happening, publishes, polls, published, happens, Delivery, spawn-happens,
}
use nyarix_runtime.Errors.{
  sandbox_violation, file_not_whitelisted, network_not_whitelisted, dns_not_whitelisted,
}
use nyarix_runtime.ModuleApi.IoPolicy.{allows_path, allows, allows_host}
use nyarix_runtime.ModuleApi.Context.{
  RuntimeContext, ModuleMetadata, open_connection_count, check_file_access, check_network_access,
  check_dns_resolve, check_bind_access,
}
use nyarix_runtime.ModuleApi.Context
use nyarix_runtime.ModuleApi.Context.Access.{Guarded, BindGuarded, check-Guarded}
use nyarix_runtime.ModuleApi.Context.Connections.{Change, opens, closes, tally, track, track-count}
use nyarix_runtime.ModuleApi.Metrics.{Floats, HistogramState}
use nyarix_runtime.ModuleApi.Metrics
use nyarix_runtime.ModuleApi.Metrics.Buckets.{observe_all, observe_all-new}
use nyarix_runtime.Tests.Fixtures.{masks, fixed}

-- A broadcast channel as the list of all messages sent.
record Log : Type 0 where
  messages : List Event
  capacity : ℕ

abbrev next_message : ℕ → Option Event → Received Event × ℕ
next_message at none = (pending, at)
next_message at (some e) = (received e, suc at)

-- A receiver that is too far behind goes to the oldest message that is kept.
abbrev receive : Log → ℕ → Received Event × ℕ
receive c at =
    if ltb (at + c.capacity) (length c.messages)
    then (lagged (length c.messages - (at + c.capacity)), length c.messages - c.capacity)
    else next_message at (get_elem? c.messages at)

receive_cases :
    (c : Log) (r : ℕ)
    → ((get_elem? c.messages r ≡ none) × (receive c r ≡ (if true then pending else closed, r)))
      ⊎ ((e : Event) × (s : ℕ) × (get_elem? c.messages r ≡ some e)
          × (receive c r ≡ (received e, s))
          × (s ≡ suc r))
      ⊎ ((n : ℕ) × (s : ℕ) × (r + c.capacity < length c.messages)
          × (receive c r ≡ (lagged n, s))
          × (s ≡ r + n)
          × (r + n ≤ length c.messages))
receive_cases c r = elim (Bool-cases (ltb (r + c.capacity) (length c.messages))) [
  | inl behind ↦ inr (
      inr (
        length c.messages - (r + c.capacity),
        length c.messages - c.capacity,
        ground (arith, behind),
        rw behind refl,
        ground (arith, behind),
        ground (arith, behind),
      ))
  | inr near ↦ elim (Option-cases (get_elem? c.messages r)) [
    | inl e ↦ inl (e, rw (near, e) refl)
    | inr (x, e) ↦ inr (inl (x, suc r, e, rw (near, e) refl, refl))
  ]
]

abbrev logs : Broadcast Log ℕ Event
logs = record {
  channel = λ n. record { messages = []; capacity = n };
  send = λ c e. record c { messages = c.messages ++ e ∷ [] };
  subscribe = λ c. length c.messages;
  recv = receive;
  sent = λ c. c.messages;
  capacity = λ c. c.capacity;
  is_open = λ c. true;
  position = λ r. r;
  sent-channel = λ n. refl;
  sent-send = λ c e. (refl, refl);
  position-subscribe = λ c. refl;
  recv_cases = receive_cases;
}

-- Three flows are built on a bus with room for two events, and the task is polled at the end.
abbrev story : List Happening
story =
    publishes (flow_built 1)
    ∷ polls
    ∷ publishes (flow_built 2)
    ∷ publishes (flow_built 3)
    ∷ polls
    ∷ polls
    ∷ []

abbrev wanted : EventFilter
wanted = only (nyarix_runtime.ModuleApi.Event.EventKind.flow_built ∷ [])

abbrev bus : Log
bus = logs.channel 2

spawn-happens_example :
    Delivery logs
      (logs.sent bus)
      (published story)
      (happens logs story (bus, spawn logs wanted bus))
spawn-happens_example = spawn-happens logs story bus wanted

abbrev required : List Capability
required = network ∷ dns ∷ []

request-has_example :
    ((c : Capability)
      → grant_has masks (request masks required 3) c ≡ (requests c required && has masks 3 c))
    × Denials masks 3 required (request masks required 3).denied
    × ((is_fully_granted masks (request masks required 3) ≡ true)
        ↔ ((c : Capability) → requests c required ≡ true → has masks 3 c ≡ true))
request-has_example = request-has masks required 3

-- Five calls, at the first instant and at a later one, where there are two tokens.
calls-new_example :
    ((calls fixed (repeated 5 0) (RateLimiter.new fixed 0 2 1)).1 ≡ 2)
    × ((calls fixed (repeated 5 9) (calls fixed (0 ∷ 4 ∷ 9 ∷ []) (RateLimiter.new fixed 0 2 1)).0).1
        ≤ 2)
calls-new_example = calls-new fixed 0 2 1 (0 ∷ 4 ∷ 9 ∷ []) 5 9 (omega arith)

abbrev metadata : ℕ → ModuleMetadata
metadata name = record { name = name; required_capabilities = required }

abbrev context : RuntimeContext ℕ Log ℕ
context = Context.with_granted_capabilities (Context.new []) 3

abbrev connections : List Change
connections =
    opens (metadata 1) ∷ opens (metadata 2) ∷ closes (metadata 2) ∷ closes (metadata 2) ∷ []

track-count_example :
    (open_connection_count (track connections context) 2
      ≡ tally 2 (open_connection_count context 2) connections)
    × (open_connection_count (track connections context) 2 ≤ open_connection_count context 2 + 4)
unfolding open_connection_count Context.with_granted_capabilities Context.new
track-count_example = track-count connections 2 context (omega arith)

check-Guarded_example :
    Guarded masks logs fixed 7 filesystem
      (allows_path context.filesystem_policy (4 ∷ []))
      (sandbox_violation 1 (file_not_whitelisted (4 ∷ [])))
      context
      (metadata 1)
      (check_file_access masks logs fixed 7 (4 ∷ []) context (metadata 1))
    × Guarded masks logs fixed 7 network
        (allows context.network_policy 8 443)
        (sandbox_violation 1 (network_not_whitelisted 8 443))
        context
        (metadata 1)
        (check_network_access masks logs fixed 7 8 443 context (metadata 1))
    × Guarded masks logs fixed 7 dns
        (allows_host context.network_policy 8)
        (sandbox_violation 1 (dns_not_whitelisted 8))
        context
        (metadata 1)
        (check_dns_resolve masks logs fixed 7 8 context (metadata 1))
    × BindGuarded masks logs fixed 7 443 context
        (metadata 1)
        (check_bind_access masks logs fixed 7 443 context (metadata 1))
check-Guarded_example = check-Guarded masks logs fixed 7 (4 ∷ []) 8 443 context (metadata 1)

-- Whole numbers in the place of the measured values.
abbrev whole : Floats ℕ
whole = record { zero_value = 0; add = λ m n. m + n; at_most = leb }

-- Seven values against the bounds 10 and 20.
abbrev bounds : List ℕ
bounds = 10 ∷ 20 ∷ []

abbrev values : List ℕ
values = 3 ∷ 25 ∷ 10 ∷ 11 ∷ 20 ∷ 7 ∷ 90 ∷ []

observe_all-new_example :
    (h : HistogramState ℕ) × (observe_all whole (Metrics.new whole bounds) values ≡ some h)
    × (h.bounds ≡ bounds)
    × (h.counts ≡ 3 ∷ 2 ∷ 2 ∷ [])
    × (length h.counts ≡ suc (length bounds))
    × (h.count ≡ 7)
    × (h.sum ≡ 166)
observe_all-new_example = observe_all-new whole bounds values
